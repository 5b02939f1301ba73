-- ===== src/Base/Text.antt =====
-- Texts that begin differently.
use Prim.Native.String.{String, ◌++◌, count}
use mathlib.Core.Path.{◌≡◌}
use mathlib.Core.Logic.{◌≢◌}
use text.Mathlib.TextLemmas.{append_inj}

-- Two keys whose heads have one length and differ are different, whatever follows.
pub append-ne_of_head-ne : (p q a b : String) → count p ≡ count q → p ≢ q → p ++ a ≢ q ++ b
append-ne_of_head-ne p q a b same ne e = ne (append_inj e same).0
