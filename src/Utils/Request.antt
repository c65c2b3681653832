-- ===== src/Utils/Request.antt =====
-- utils/request.py and utils/errors.py.
pub mod Words
pub mod Params
pub mod Form
pub mod SplitJoin
