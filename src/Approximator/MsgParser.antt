-- ===== src/Approximator/MsgParser.antt =====
-- msg_parser.h and msg_parser.cpp.
pub mod Chars
pub mod Integer
pub mod Decimal
pub mod Params
pub mod Message
pub mod Printer
