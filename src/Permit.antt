-- ===== src/Permit.antt =====
-- internal/permit: claims, the permit store with its authority epochs, tokens and the issuer.
pub mod Claims
pub mod Authority
pub mod Store
pub mod Token
pub mod Issuer
