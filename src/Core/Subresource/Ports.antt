-- ===== src/Core/Subresource/Ports.antt =====
-- Which ports `portforward` of kube-core/src/subresource.rs accepts.
use kube.Prelude.{
  ℕ, ◌≤◌, ◌<◌, ◌≡◌, ◌≢◌, refl, ap, Bool, true, false, ◌||◌, List, [], ◌∷◌, ◌++◌, nat_eq, eq_refl,
  length, if◌then◌else◌, ltb, ltb→lt, Result, ok, err, ◌⊎◌, inl, inr, Bool-cases, arith,
}
use kube.Prelude.HashSet.{contains, contains_cong, insert, contains-insert}
use kube.Core.Query.{ValidationError, validation, repeated_port}
use kube.Core.Subresource.{unique_from, validate_ports}

-- No port is there twice.
abbrev pub Unique : List ℕ → Type 0
Unique [] = Unit
Unique (port ∷ ports) = (contains ports port ≡ false) × Unique ports

-- None of the ports was seen.
abbrev Fresh : List ℕ → List ℕ → Type 0
Fresh seen ports = (p : ℕ) → contains ports p ≡ true → contains seen p ≡ false

-- The first port that was there before: the ports before it are unique.
abbrev pub Repeats : ℕ → List ℕ → List ℕ → Type 0
Repeats port seen ports =
    (before after : List ℕ) × (ports ≡ before ++ (port ∷ after))
    × ((contains seen port || contains before port) ≡ true)
    × Unique before
    × Fresh seen before

abbrev FromSeen : List ℕ → List ℕ → Result ValidationError (Unit {0}) → Type 0
FromSeen seen ports (ok u) = Unique ports × Fresh seen ports
FromSeen seen ports (err (repeated_port port)) = Repeats port seen ports
FromSeen seen ports (err (validation message)) = ⊥

Fresh-alone :
    (port : ℕ) (seen ports : List ℕ) → Fresh (insert port seen) ports → contains ports port ≡ false
Fresh-alone port seen ports fresh = elim (Bool-cases (contains ports port)) [
  | inl h ↦ ground (arith, fresh port h, contains-insert port port seen, eq_refl port)
  | inr h ↦ h
]

Fresh-cons :
    (port : ℕ) (seen ports : List ℕ)
    → contains seen port ≡ false
    → Fresh (insert port seen) ports
    → Fresh seen (port ∷ ports)
unfolding contains
Fresh-cons port seen ports new fresh p h = elim (Bool-cases (contains ports p)) [
  | inl there ↦ ground (arith, fresh p there, contains-insert port p seen)
  | inr not_there ↦ ground (arith, contains_cong port p seen)
]

next-FromSeen :
    (port : ℕ) (seen ports : List ℕ) (r : Result ValidationError (Unit {0}))
    → contains seen port ≡ false
    → FromSeen (insert port seen) ports r
    → FromSeen seen (port ∷ ports) r
unfolding contains
next-FromSeen port seen ports (ok u) new (unique, fresh) =
    ((Fresh-alone port seen ports fresh, unique), Fresh-cons port seen ports new fresh)
next-FromSeen port seen ports (err (repeated_port p)) new (before, after, e, was, unique, fresh) = (
  port ∷ before,
  after,
  ap (λ l. port ∷ l) e,
  ground (arith, contains-insert port p seen),
  (Fresh-alone port seen before fresh, unique),
  Fresh-cons port seen before new fresh,
)
next-FromSeen port seen ports (err (validation message)) new h = absurd h

tested-FromSeen :
    (port : ℕ) (seen ports : List ℕ) (rest : Result ValidationError (Unit {0})) (b : Bool)
    → contains seen port ≡ b
    → FromSeen (insert port seen) ports rest
    → FromSeen seen (port ∷ ports) (if b then err (repeated_port port) else rest)
unfolding contains
tested-FromSeen port seen ports rest true h ih =
    ([], ports, refl, ground (arith, h), tt, λ p e. absurd cc)
tested-FromSeen port seen ports rest false h ih = next-FromSeen port seen ports rest h ih

unique_from-FromSeen : (seen ports : List ℕ) → FromSeen seen ports (unique_from seen ports)
unfolding contains insert
unique_from-FromSeen seen [] = (tt, λ p h. absurd cc)
unique_from-FromSeen seen (port ∷ ports) =
    tested-FromSeen port seen ports (unique_from (insert port seen) ports) (contains seen port) refl
      (unique_from-FromSeen (insert port seen) ports)

-- What becomes of ports: they are accepted, one of them is there twice, or there are none or too many.
abbrev pub PortsChecked : List ℕ → Result ValidationError (Unit {0}) → Type 0
PortsChecked ports (ok u) = (ports ≢ []) × (length ports ≤ 128) × Unique ports
PortsChecked ports (err (repeated_port port)) = Repeats port [] ports
PortsChecked ports (err (validation message)) = (ports ≡ []) ⊎ (128 < length ports)

unique-PortsChecked :
    (port : ℕ) (ports : List ℕ) (r : Result ValidationError (Unit {0}))
    → length (port ∷ ports) ≤ 128
    → FromSeen [] (port ∷ ports) r
    → PortsChecked (port ∷ ports) r
unique-PortsChecked port ports (ok u) le (unique, fresh) = ((λ e. absurd cc), le, unique)
unique-PortsChecked port ports (err (repeated_port p)) le repeats = repeats
unique-PortsChecked port ports (err (validation message)) le h = absurd h

-- Ports are accepted exactly if there is one, there are 128 at most, and none is there twice. Else the
-- error is about the first port that was there before, or there are none or too many.
pub validate_ports-PortsChecked : (ports : List ℕ) → PortsChecked ports (validate_ports ports)
unfolding validate_ports contains
validate_ports-PortsChecked [] = inl refl
validate_ports-PortsChecked (port ∷ []) = ((λ e. absurd cc), ground arith, (refl, tt))
validate_ports-PortsChecked (port ∷ other ∷ ports) =
    elim (Bool-cases (ltb 128 (length (port ∷ other ∷ ports)))) [
      | inl h ↦ rw h (inr (ltb→lt 128 (length (port ∷ other ∷ ports)) h))
      | inr h ↦ rw h (
          unique-PortsChecked port (other ∷ ports) (unique_from [] (port ∷ other ∷ ports))
            (ground arith) (unique_from-FromSeen [] (port ∷ other ∷ ports)))
    ]
