-- ===== src/Wire.antt =====
-- utilities/system/inc/Packable.h: objects written into and read from a byte buffer at an offset.
-- `Buffer` has the memory operations, `Codec` the interface of the overloads with its laws, and
-- each other child the overloads for one kind of type, with the proof that they obey the laws.
pub mod Buffer
pub mod Codec
pub mod Primitive
pub mod Text
pub mod Pair
pub mod Vector
pub mod Uuid
pub mod Devices
pub mod Files
pub mod Notifications
pub mod RoundTrip
mod Tests
