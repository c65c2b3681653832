-- ===== src/Storage/Families.antt =====
-- storage/pg/repository.py: the methods that revoke every refresh token of a grant, of a code or of a
-- user and a client, and the one that deletes a user's consent.
pub mod Rows
pub mod Consents
