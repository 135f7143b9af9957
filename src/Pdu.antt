-- ===== src/Pdu.antt =====
-- The SMS PDU codec (internal/at/pdu.go).
pub mod Septets
pub mod Alphabet
pub mod Address
pub mod Ucs2
pub mod Submit
pub mod Deliver
