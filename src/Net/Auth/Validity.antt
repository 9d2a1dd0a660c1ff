-- ===== src/Net/Auth/Validity.antt =====
-- How long the tokens of src/net/auth.cpp are valid.
