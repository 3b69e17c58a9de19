-- ===== src/Std.antt =====
-- What the program uses of the C++ standard library, in base ten: `std::from_chars` and
-- `std::to_string` throughout src/protocol, src/server and src/storage, `std::stoi` in src/main.cpp.
pub mod Decimal
pub mod DecimalRoundTrip
pub mod Stoi
