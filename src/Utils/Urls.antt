-- ===== src/Utils/Urls.antt =====
-- utils/urls.py, and urllib.parse.urlparse as the code reads it.
pub mod Parse
pub mod Issuer
