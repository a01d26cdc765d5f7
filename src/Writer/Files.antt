-- ===== src/Writer/Files.antt =====
-- The files that writer.go uses, by name, as far as os and path/filepath promise them.
use onelog.Prelude.{
  ◌≡◌, refl, sym, ap, ◌∙◌, false, Option, none, some, List, [], ◌∷◌, inl, inr, Bytes, bytes_eq,
  bytes_eq_iff, bytes_eq_refl, bytes_eq_ne, if◌then◌else◌, Bool-cases, arith,
}

abbrev pub Disk : Type 0
Disk = List (Bytes × Bytes)

-- What a file holds, if there is one of the name.
abbrev pub content : Disk → Bytes → Option Bytes
content [] name = none
content ((n, c) ∷ d) name = let rest = content d name in if bytes_eq name n then some c else rest

abbrev pub remove : Disk → Bytes → Disk
remove [] name = []
remove ((n, c) ∷ d) name =
    let rest = remove d name in if bytes_eq name n then rest else (n, c) ∷ rest

abbrev pub put : Disk → Bytes → Bytes → Disk
put d name c = (name, c) ∷ remove d name

-- `O_CREATE`: a file that is there is left as it is.
abbrev pub created : Option Bytes → Disk → Bytes → Disk
created none d name = put d name []
created (some c) d name = d

abbrev pub or_empty : Option Bytes → Bytes
or_empty none = []
or_empty (some c) = c

-- `os.Rename` replaces a file of the new name.
abbrev pub renamed : Option Bytes → Disk → Bytes → Bytes → Disk
renamed none d old new = d
renamed (some c) d old new = put (remove d old) new c

pub content-remove_self : (d : Disk) (name : Bytes) → content (remove d name) name ≡ none
content-remove_self [] name = refl
content-remove_self ((n, c) ∷ d) name = ground (arith, content-remove_self d name)

pub content-remove_ne :
    (d : Disk) (name other : Bytes)
    → ¬ (other ≡ name)
    → content (remove d name) other ≡ content d other
content-remove_ne [] name other h = refl
content-remove_ne ((n, c) ∷ d) name other h = elim (Bool-cases (bytes_eq name n)) [
  | inl e ↦
      let away : bytes_eq other n ≡ false =
        ap (bytes_eq other) (sym ((bytes_eq_iff name n).0 e)) ∙ bytes_eq_ne other name h in
      rw (e, away) (content-remove_ne d name other h)
  | inr e ↦ rw (e, content-remove_ne d name other h) refl
]

pub content-put_self : (d : Disk) (name c : Bytes) → content (put d name c) name ≡ some c
content-put_self d name c = rw (bytes_eq_refl name) refl

pub content-put_ne :
    (d : Disk) (name c other : Bytes)
    → ¬ (other ≡ name)
    → content (put d name c) other ≡ content d other
content-put_ne d name c other h = rw (bytes_eq_ne other name h) (content-remove_ne d name other h)
