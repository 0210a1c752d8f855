-- ===== src/Tests/Addresses.antt =====
-- Hashing on a concrete address.
use node2x6x2b.Base.{◌%◌, ◌≡◌, length}
use node2x6x2b.Murmur.{murmurhash3_x86_32}
use node2x6x2b.Murmur.Stream.{bytes_of}
use node2x6x2b.Hash.{hash, filter_size}
use node2x6x2b.Hash.Decimal.{sprintf_lld}
use node2x6x2b.Hash.Reference.{hash-murmur}

hash-murmur_example :
    hash 8200
    ≡ murmurhash3_x86_32 (bytes_of (sprintf_lld 8200)) (length (sprintf_lld 8200)) 0 % filter_size
hash-murmur_example = hash-murmur 8200
