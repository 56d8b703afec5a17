-- ===== src/Qr.antt =====
-- services/qrcode.go: the QR codes of the deposit pages, byte mode at error-correction level L.
pub mod Bits
pub mod ReedSolomon
pub mod Matrix
pub mod Masking
pub mod Grid
pub mod Penalty
mod Tests
pub mod Bytes
pub mod Shape
pub mod Trials
pub mod Undo
pub mod Reserved
pub mod Best
pub mod Encode
pub mod Mask
pub mod Fuel
pub mod Interleave
pub mod Tables
pub mod Field
pub mod Codewords
pub mod Choice
pub mod Length
pub mod RoundTrip
