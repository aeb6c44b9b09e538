-- ===== src/Shared/BboxDebounce/Keys.antt =====
-- The keys of the requests, compared.
use signalk_activecaptain_re.Base.{Bool, true, false, [], ◌∷◌, any, nat_beq, if◌then◌else◌}
use signalk_activecaptain_re.Base.Text.{Text}
use signalk_activecaptain_re.Shared.BboxDebounce.{backslash, bar}

abbrev pub has_bar : Text → Bool
has_bar s = any (λ c. nat_beq c bar) s

-- A reader of the escaped discriminator.
abbrev unescape : Bool → Text → Text
unescape pending [] = []
unescape true (c ∷ s) = c ∷ unescape false s
unescape false (c ∷ s) =
    let taken = unescape true s in
    let plain = c ∷ unescape false s in if nat_beq c backslash then taken else plain
