-- ===== src/Cfg/Laws.antt =====
-- Laws of the configuration's flags, and of the results of the parsers.
use xdccget_for_windows.Base.{ℕ, true, arith, ◌≡◌, ◌==◌, if◌then◌else◌, refl}
use xdccget_for_windows.Cfg.{XdccGetConfig, cfg_set_bit, cfg_get_bit, ◌>>=◌, Run, ok, exited}
use xdccget_for_windows.Flags.Laws.{get_bit-set_bit}

-- A flag that is set reads as set, and every other flag reads as before.
pub cfg_get_bit-cfg_set_bit :
    (config : XdccGetConfig) (n m : ℕ)
    → cfg_get_bit (cfg_set_bit config n) m ≡ (if n == m then true else cfg_get_bit config m)
unfolding cfg_get_bit cfg_set_bit
cfg_get_bit-cfg_set_bit config n m = ground (arith, get_bit-set_bit config.flags n m)

-- Two continuations that agree everywhere may stand for one another.
pub bind_ext {ℓ κ} :
    {A : Type ℓ} {B : Type κ} (m : Run A) (f g : A → Run B)
    → ((a : A) → f a ≡ g a)
    → (m >>= f) ≡ (m >>= g)
bind_ext (ok a) f g h = h a
bind_ext (exited n) f g h = refl
