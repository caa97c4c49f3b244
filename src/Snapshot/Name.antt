-- ===== src/Snapshot/Name.antt =====
-- `format!("snapshot-{:04}.bin", id)`: the names of snapshot files, one for each id.
use native.Mathlib.Nat.{pow-suc}
use lightgraph.Base.{
  ℕ, zero, suc, ◌+◌, ◌-◌, ◌*◌, ◌/◌, ◌%◌, ◌^◌, ◌<◌, ◌≡◌, ◌≢◌, refl, sym, ap, ◌∙◌, Bool-cases, inl,
  inr, [], ◌∷◌, ◌++◌, append_assoc, arith, ltb, le→ltb, false, if◌then◌else◌, length, Bytes,
}

-- The decimal digits of a number, with a unit of fuel for each; a u64 has 20 at most.
unfoldable pub decimal : ℕ → ℕ → Bytes
decimal zero n = []
decimal (suc fuel) n =
    let front = decimal fuel (n / 10) in
    if ltb n 10 then (48 + n) ∷ [] else front ++ (48 + n % 10) ∷ []

unfoldable pub zeros : ℕ → Bytes
zeros zero = []
zeros (suc n) = 48 ∷ zeros n

-- `{:04}`
unfoldable pub pad4 : Bytes → Bytes
unfolding zeros
pad4 digits = zeros (4 - length digits) ++ digits

-- b"snapshot-" and b".bin"
abbrev pub prefix : Bytes
prefix = 115 ∷ 110 ∷ 97 ∷ 112 ∷ 115 ∷ 104 ∷ 111 ∷ 116 ∷ 45 ∷ []

abbrev pub suffix : Bytes
suffix = 46 ∷ 98 ∷ 105 ∷ 110 ∷ []

unfoldable pub snapshot_name : ℕ → Bytes
unfolding decimal pad4
snapshot_name id = prefix ++ (pad4 (decimal 20 id) ++ suffix)

-- b"manifest.json"
abbrev pub manifest_name : Bytes
manifest_name = 109 ∷ 97 ∷ 110 ∷ 105 ∷ 102 ∷ 101 ∷ 115 ∷ 116 ∷ 46 ∷ 106 ∷ 115 ∷ 111 ∷ 110 ∷ []

-- The number that a string of digits stands for, read behind the digits of `acc`, up to a full stop.
abbrev number : ℕ → Bytes → ℕ
number acc [] = acc
number acc (c ∷ cs) = let rest = number (10 * acc + (c - 48)) cs in if ltb c 48 then acc else rest

number-zeros : (k : ℕ) (cs : Bytes) → number 0 (zeros k ++ cs) ≡ number 0 cs
unfolding zeros
number-zeros zero cs = refl
number-zeros (suc k) cs = number-zeros k cs

number-digit : (acc d : ℕ) (cs : Bytes) → number acc ((48 + d) ∷ cs) ≡ number (10 * acc + d) cs
number-digit acc d cs =
    let not_below : ltb (48 + d) 48 ≡ false = le→ltb (48 + d) 48 (omega arith) in
    let value : 10 * acc + (48 + d - 48) ≡ 10 * acc + d = omega arith in rw (not_below, value)

number-decimal :
    (fuel n : ℕ) (cs : Bytes) → n < 10 ^ fuel → number 0 (decimal fuel n ++ cs) ≡ number n cs
unfolding decimal
number-decimal zero n cs h = let e : 0 ≡ n = omega arith in ap (λ (m : ℕ). number m cs) e
number-decimal (suc fuel) n cs h = elim (Bool-cases (ltb n 10)) [
  | inl q ↦
      let value : 10 * 0 + n ≡ n = omega arith in
      rw (decimal, q) (number-digit 0 n cs ∙ ap (λ (m : ℕ). number m cs) value)
  | inr q ↦
      let small : n / 10 < 10 ^ fuel = omega (arith, pow-suc 10 fuel) in
      let value : 10 * (n / 10) + n % 10 ≡ n = omega arith in
      rw (decimal, q, append_assoc)
        (number-decimal fuel (n / 10) ((48 + n % 10) ∷ cs) small
          ∙ number-digit (n / 10) (n % 10) cs
          ∙ ap (λ (m : ℕ). number m cs) value)
]

-- what the name says behind the prefix
abbrev id_in : Bytes → ℕ
id_in (_ ∷ _ ∷ _ ∷ _ ∷ _ ∷ _ ∷ _ ∷ _ ∷ _ ∷ cs) = number 0 cs
id_in _ = 0

id_in-snapshot_name : (id : ℕ) → id < 2 ^ 64 → id_in (snapshot_name id) ≡ id
unfolding snapshot_name pad4
id_in-snapshot_name id h = rw (append_assoc) (
    number-zeros (4 - length (decimal 20 id)) (decimal 20 id ++ suffix)
    ∙ number-decimal 20 id suffix (omega arith))

-- Two ids have two names.
pub snapshot_name-injective :
    (i j : ℕ) → i < 2 ^ 64 → j < 2 ^ 64 → snapshot_name i ≡ snapshot_name j → i ≡ j
snapshot_name-injective i j hi hj e =
    sym (id_in-snapshot_name i hi) ∙ ap id_in e ∙ id_in-snapshot_name j hj

abbrev first : Bytes → ℕ
first [] = 0
first (c ∷ _) = c

pub snapshot_name-manifest_name : (id : ℕ) → manifest_name ≢ snapshot_name id
unfolding snapshot_name
snapshot_name-manifest_name id e = let c : ◌≡◌ {A = ℕ} 109 115 = ap first e in absurd (omega arith)
