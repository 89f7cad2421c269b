-- ===== src/Version/Tests.antt =====
-- A version with concrete numbers.
use nexus_c.Base.{◌≡◌, arith}
use nexus_c.Version.{version_pack, version_unpack, version_unpack-version_pack}

version_unpack-version_pack_example : version_unpack (version_pack 1 2 65535 4) ≡ (1, 2, 65535, 4)
version_unpack-version_pack_example =
    version_unpack-version_pack 1 2 65535 4 (omega arith) (omega arith) (omega arith) (omega arith)
