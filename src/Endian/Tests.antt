-- ===== src/Endian/Tests.antt =====
-- The theorems on byte order at concrete words.
use cubesat_space_protocol.Base.{◌≡◌, false, true, refl, arith}
use cubesat_space_protocol.Endian.Wide.{swap64, hton64, ntoh64, htole64, memory64, hton64-memory}

swap64_runs : swap64 0x0102030405060708 ≡ 0x0807060504030201
unfolding swap64
swap64_runs = refl

hton64-memory_example :
    (memory64 false (hton64 false 0x0102030405060708) ≡ memory64 true 0x0102030405060708)
    × (memory64 false (htole64 false 0x0102030405060708) ≡ memory64 false 0x0102030405060708)
    × (ntoh64 false (hton64 false 0x0102030405060708) ≡ 0x0102030405060708)
hton64-memory_example = hton64-memory false 0x0102030405060708 (omega arith)
