-- ===== src/Tests.antt =====
-- Runs of the definitions, and the theorems at concrete inputs.
mod LddTests
mod SogTests
mod GraphTests
mod NetTests
mod ThreadTests
mod CanonizeTests
mod AmpleTests
mod KripkeTests
mod CanonizedTests
mod TableTests
mod CacheTests
