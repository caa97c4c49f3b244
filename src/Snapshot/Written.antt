-- ===== src/Snapshot/Written.antt =====
-- What a call that returns without an error leaves in the files.
use lightgraph.Base.{
  ℕ, ◌≡◌, ◌≢◌, refl, sym, ap, ◌∙◌, Bool, true, false, Option-cases, ◌⊎◌, inl, inr, ◌++◌, Bytes,
}
use lightgraph.Extern.{IoResult, IoError, ok, err, Files, Json, Bincode}
use lightgraph.Snapshot.Name.{snapshot_name, manifest_name, snapshot_name-manifest_name}
use lightgraph.Snapshot.Manager.{
  Manifest, Stores, SnapshotData, read_manifest, write_manifest, write_snapshot, read_snapshot,
}

pub IoResult-cases :
    {A : Type 0} (r : IoResult A) → ((a : A) × (r ≡ ok a)) ⊎ ((e : IoError) × (r ≡ err e))
IoResult-cases (ok a) = inl (a, refl)
IoResult-cases (err e) = inr (e, refl)

abbrev has_value : {A : Type 0} → IoResult A → Bool
has_value (ok _) = true
has_value (err _) = false

pub err_not_ok : {A : Type 0} {e : IoError} {a : A} → err e ≡ ok a → ⊥
err_not_ok h = let b : false ≡ true = ap has_value h in cc

module _ {Fs : Type 0} ⦃FF : Files Fs⦄ where
  module _ ⦃J : Json Manifest⦄ where
    -- A manifest that was written is the one that is read.
    pub read_manifest-write_manifest :
        (m : Manifest) (fs : Fs)
        → (write_manifest m fs).1 ≡ ok tt
        → read_manifest (write_manifest m fs).0 ≡ ok m
    unfolding write_manifest read_manifest
    read_manifest-write_manifest m fs h = elim (IoResult-cases (J.to_string_pretty m)) [
      | inr (e, q) ↦ absurd (err_not_ok (rw (write_manifest, q) at h))
      | inl (text, q) ↦
          let wrote : (FF.write fs manifest_name text).1 ≡ ok tt = rw (write_manifest, q) at h in
          rw (write_manifest, q, read_manifest, FF.write-ok fs manifest_name text wrote)
            (J.from_str-to_string_pretty m text q)
    ]

    pub read-write_manifest :
        (m : Manifest) (fs : Fs) (n : Bytes)
        → n ≢ manifest_name
        → FF.read (write_manifest m fs).0 n ≡ FF.read fs n
    unfolding write_manifest
    read-write_manifest m fs n ne = elim (IoResult-cases (J.to_string_pretty m)) [
      | inr (e, q) ↦ rw (write_manifest, q)
      | inl (text, q) ↦ rw (write_manifest, q) (FF.read-write fs manifest_name n text ne)
    ]

  module _ ⦃B : Bincode SnapshotData⦄ where
    -- A snapshot that was written is the one that is read.
    pub read_snapshot-write_snapshot :
        (id : ℕ) (stores : Stores) (fs : Fs)
        → (write_snapshot id stores fs).1 ≡ ok tt
        → read_snapshot id (write_snapshot id stores fs).0
          ≡ ok (record { version = 1; snapshot_id = id; stores = stores })
    unfolding write_snapshot read_snapshot
    read_snapshot-write_snapshot id stores fs h =
        let name = snapshot_name id in
        let d : SnapshotData = record { version = 1; snapshot_id = id; stores = stores } in
        let p₁ = FF.create fs name in
        elim (IoResult-cases p₁.1) [
          | inr (e, q) ↦ absurd (err_not_ok (rw (write_snapshot, q) at h))
          | inl (u, q₁) ↦ elim (Option-cases (B.serialize d)) [
            | inl q ↦ absurd (err_not_ok (rw (write_snapshot, q₁, q) at h))
            | inr (bs, s) ↦
                let p₂ = FF.write_all p₁.0 name bs in
                elim (IoResult-cases p₂.1) [
                  | inr (e, q) ↦ absurd (err_not_ok (rw (write_snapshot, q₁, s, q) at h))
                  | inl (v, q₂) ↦
                      let p₃ = FF.flush p₂.0 name in
                      elim (IoResult-cases p₃.1) [
                        | inr (e, q) ↦ absurd (err_not_ok (rw (write_snapshot, q₁, s, q₂, q) at h))
                        | inl (x, q₃) ↦
                            let there : FF.read (FF.sync_all p₃.0 name).0 name ≡ ok bs =
                              FF.read-sync_all p₃.0 name
                              ∙ FF.flush-ok p₂.0 name q₃
                              ∙ ap ok (
                                  FF.write_all-ok p₁.0 name bs q₂
                                  ∙ ap (λ (z : Bytes). z ++ bs) (FF.create-ok fs name q₁)) in
                            rw (
                              write_snapshot,
                              q₁,
                              s,
                              q₂,
                              q₃,
                              read_snapshot,
                              there,
                              B.deserialize-serialize d bs s,
                            )
                      ]
                ]
          ]
        ]

    pub read-write_snapshot :
        (id : ℕ) (stores : Stores) (fs : Fs) (n : Bytes)
        → n ≢ snapshot_name id
        → FF.read (write_snapshot id stores fs).0 n ≡ FF.read fs n
    unfolding write_snapshot
    read-write_snapshot id stores fs n ne =
        let name = snapshot_name id in
        let d : SnapshotData = record { version = 1; snapshot_id = id; stores = stores } in
        let p₁ = FF.create fs name in
        let e₁ = FF.read-create fs name n ne in
        elim (IoResult-cases p₁.1) [
          | inr (e, q) ↦ rw (write_snapshot, q) e₁
          | inl (u, q₁) ↦ elim (Option-cases (B.serialize d)) [
            | inl q ↦ rw (write_snapshot, q₁, q) e₁
            | inr (bs, s) ↦
                let p₂ = FF.write_all p₁.0 name bs in
                let e₂ = FF.read-write_all p₁.0 name n bs ne ∙ e₁ in
                elim (IoResult-cases p₂.1) [
                  | inr (e, q) ↦ rw (write_snapshot, q₁, s, q) e₂
                  | inl (v, q₂) ↦
                      let p₃ = FF.flush p₂.0 name in
                      let e₃ = FF.read-flush p₂.0 name n ne ∙ e₂ in
                      elim (IoResult-cases p₃.1) [
                        | inr (e, q) ↦ rw (write_snapshot, q₁, s, q₂, q) e₃
                        | inl (x, q₃) ↦
                            rw (write_snapshot, q₁, s, q₂, q₃)
                              (FF.read-sync_all-other p₃.0 name n ne ∙ e₃)
                      ]
                ]
          ]
        ]

    pub read_snapshot-write_manifest :
        ⦃J : Json Manifest⦄ (id : ℕ) (m : Manifest) (fs : Fs)
        → read_snapshot id (write_manifest m fs).0 ≡ read_snapshot id fs
    unfolding read_snapshot
    read_snapshot-write_manifest id m fs =
        let other : snapshot_name id ≢ manifest_name =
          λ e. snapshot_name-manifest_name id (sym e) in
        rw (read_snapshot, read-write_manifest m fs (snapshot_name id) other)
