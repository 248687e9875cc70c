-- ===== src/World/Trace.antt =====
-- What a history holds: its commands and its log entries.
use oracle_patching.Prelude.{◌≡◌, refl, ap, ◌⊎◌, inl, inr, List, [], ◌∷◌, ◌++◌}
use oracle_patching.Audit.{AuditEntry, Log}
use oracle_patching.World.{Command, Event, ran, logged, printed, asked}

-- The commands that were run, in order.
abbrev pub commands : List Event → List Command
commands [] = []
commands (ran c ∷ es) = c ∷ commands es
commands (_ ∷ es) = commands es

-- The entries that were logged, in order.
abbrev pub entries : List Event → Log
entries [] = []
entries (logged e ∷ es) = e ∷ entries es
entries (_ ∷ es) = entries es

pub commands-append : (es fs : List Event) → commands (es ++ fs) ≡ commands es ++ commands fs
commands-append [] fs = refl
commands-append (ran c ∷ es) fs = ap (λ l. c ∷ l) (commands-append es fs)
commands-append (logged e ∷ es) fs = commands-append es fs
commands-append (printed t ∷ es) fs = commands-append es fs
commands-append (asked t ∷ es) fs = commands-append es fs

pub entries-append : (es fs : List Event) → entries (es ++ fs) ≡ entries es ++ entries fs
entries-append [] fs = refl
entries-append (logged e ∷ es) fs = ap (λ l. e ∷ l) (entries-append es fs)
entries-append (ran c ∷ es) fs = entries-append es fs
entries-append (printed t ∷ es) fs = entries-append es fs
entries-append (asked t ∷ es) fs = entries-append es fs

-- Some entry of the log satisfies `P`.
abbrev pub Some : (AuditEntry → Type 0) → Log → Type 0
Some P [] = ⊥
Some P (e ∷ es) = P e ⊎ Some P es

pub Some-append_left : (P : AuditEntry → Type 0) (xs ys : Log) → Some P xs → Some P (xs ++ ys)
Some-append_left P [] ys h = absurd h
Some-append_left P (x ∷ xs) ys (inl h) = inl h
Some-append_left P (x ∷ xs) ys (inr h) = inr (Some-append_left P xs ys h)

pub Some-append_right : (P : AuditEntry → Type 0) (xs ys : Log) → Some P ys → Some P (xs ++ ys)
Some-append_right P [] ys h = h
Some-append_right P (x ∷ xs) ys h = inr (Some-append_right P xs ys h)
