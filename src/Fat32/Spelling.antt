-- ===== src/Fat32/Spelling.antt =====
-- Names in 8.3 form and back.
use arcade_os.Base.{ℕ, ◌≢◌, List, [], ◌∷◌}
use arcade_os.Fat32.Names.{space, dot}

-- Characters that are neither a dot nor a space.
abbrev pub IsPlain : List ℕ → Type 0
IsPlain [] = Unit
IsPlain (c ∷ cs) = (c ≢ dot) × (c ≢ space) × IsPlain cs
