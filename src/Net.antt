-- ===== src/Net.antt =====
-- The part of Go's package net/netip that the program uses: addresses in Net/Address.antt, prefixes
-- in Net/Network.antt. It follows the documentation of the standard library.
mod Address
mod Network
mod Bytes
unfoldable pub use Address.*
unfoldable pub use Network.*
unfoldable pub use Bytes.*
