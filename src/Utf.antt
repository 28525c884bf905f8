-- ===== src/Utf.antt =====
-- utfconvert.h: conversion between UTF-8, UTF-16 and UTF-32. A pointer into a source and the
-- source's end are the list of code units from the pointer on; a destination buffer is the list of
-- the units written to it.
pub mod Scalar
pub mod Encode
pub mod Decode
pub mod Convert
pub mod Strings
mod Tests
