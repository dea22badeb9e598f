-- ===== src/Js.antt =====
-- What the program uses of JavaScript: text, the values of JSON and the engine's case tables.
pub mod Text
pub mod Json
pub mod Casing
pub mod Show
pub mod Number
