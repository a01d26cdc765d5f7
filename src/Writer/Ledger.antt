-- ===== src/Writer/Ledger.antt =====
-- What a file writer promises: a ledger of the bytes written, split into backups.
use onelog.Prelude.{
  ℕ, ◌≡◌, refl, ap, ◌∙◌, Bool, ◌&&◌, List, [], ◌∷◌, ◌++◌, append_assoc, append-nil, Bytes, length,
  ltb, ◌+◌, if◌then◌else◌, if_elim,
}
use onelog.Writer.{Calls}

-- `max` is the size limit, 0 for none. Backups have their stamps, and the newest is first.
pub record Ledger : Type 0 where
  pub backups : List (Bytes × Bytes)
  pub current : Bytes

abbrev pub overflows : ℕ → Ledger → Bytes → Bool
overflows max l p = ltb 0 max && ltb max (length l.current + length p)

abbrev pub ledger_write : ℕ → Bytes → Ledger → Bytes → Ledger
ledger_write max stamp l p =
    if overflows max l p
    then record { backups = (stamp, l.current) ∷ l.backups; current = p }
    else record l { current = l.current ++ p }

abbrev pub ledger_all : ℕ → Ledger → List (Calls × Bytes) → Ledger
ledger_all max l [] = l
ledger_all max l ((c, p) ∷ ws) = ledger_all max (ledger_write max c.stamp l p) ws

abbrev pub older : List (Bytes × Bytes) → Bytes
older [] = []
older ((s, b) ∷ bs) = older bs ++ b

-- All the bytes of a ledger, in the order in which they were written.
abbrev pub ledger_bytes : Ledger → Bytes
ledger_bytes l = older l.backups ++ l.current

abbrev pub all_bytes : List (Calls × Bytes) → Bytes
all_bytes [] = []
all_bytes ((c, p) ∷ ws) = p ++ all_bytes ws

ledger_bytes-write :
    (max : ℕ) (stamp : Bytes) (l : Ledger) (p : Bytes)
    → ledger_bytes (ledger_write max stamp l p) ≡ ledger_bytes l ++ p
ledger_bytes-write max stamp l p =
    if_elim (λ (m : Ledger). ledger_bytes m ≡ ledger_bytes l ++ p) (overflows max l p) _ _
      (λ e. refl) (λ e. simp append_assoc)

pub ledger_bytes-all :
    (max : ℕ) (l : Ledger) (ws : List (Calls × Bytes))
    → ledger_bytes (ledger_all max l ws) ≡ ledger_bytes l ++ all_bytes ws
ledger_bytes-all max l [] = simp append-nil
ledger_bytes-all max l ((c, p) ∷ ws) =
    ledger_bytes-all max (ledger_write max c.stamp l p) ws
    ∙ ap (λ x. x ++ all_bytes ws) (ledger_bytes-write max c.stamp l p)
    ∙ simp append_assoc
