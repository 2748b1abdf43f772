-- ===== src/Version/Tests.antt =====
-- The theorems on versions at concrete versions.
use libgimbal.Common.{ℕ, ◌<◌, ◌≡◌, ◌⊎◌, ◌↔◌, arith}
use libgimbal.Version.{make}
use libgimbal.Version.Packed.{make_order}

make_order_example :
    (make 1 300 9 < make 1 301 0)
    ↔ ((1 < 1) ⊎ ((◌≡◌ {A = ℕ} 1 1) × ((300 < 301) ⊎ ((◌≡◌ {A = ℕ} 300 301) × (9 < 0)))))
make_order_example =
    make_order 1 300 9 1 301 0 (omega arith) (omega arith) (omega arith) (omega arith) (omega arith)
      (omega arith)
