-- ===== src/Component/Policy/Moves.antt =====
-- The registries of src/MySQLComponent.cpp and the policy on stacked statements.
use omp_my_sql.Prelude.{
  ℕ, suc, Bool, false, [], All, ◌≡◌, ◌≢◌, refl, sym, ◌∙◌, arith, ◌==◌, none, some, inl, inr,
  Bool-cases, ==_iff, subst,
}
use omp_my_sql.Prelude.Map.{
  Map, lookup, put, emplace, erase, lookup-put, lookup-emplace, lookup-erase, lookup_below,
  KeysBelow-mono, lookup_fresh, emplace-KeysBelow, put-KeysBelow, erase-KeysBelow,
}
use omp_my_sql.Component.{ConnectionWorker}
use omp_my_sql.Component.Policy.{IsSingle, is_allowed, IsConsistent}

none-some : (w : ConnectionWorker) → none ≢ some w
none-some w e = ground arith

module _ (n : ℕ) (connections : Map ℕ) (workers : Map ConnectionWorker) (allowed : Map Bool) where
  pub IsConsistent-put :
      (h : ℕ) (w w' : ConnectionWorker)
      → IsConsistent n connections workers allowed
      → lookup h workers ≡ some w
      → (is_allowed allowed h ≡ false → All IsSingle w'.queue)
      → IsConsistent n connections (put h w' workers) allowed
  IsConsistent-put h w w' p e q = record {
    below = put-KeysBelow n h w' workers (lookup_below n h w workers p.below e) p.below;
    connections_below = p.connections_below;
    paired = λ k. ground (arith, p.paired k, lookup-put h k w' workers, e);
    single = λ k v found off. elim (Bool-cases (h == k)) [
      | inl same ↦
          let found' : some w' ≡ some v = sym (lookup-put h k w' workers ∙ rw same) ∙ found in
          let here : is_allowed allowed h ≡ false = rw ((==_iff h k).0 same) off in
          let eq : w' ≡ v = ground (arith, found') in
          subst (λ (x : ConnectionWorker). All IsSingle x.queue) eq (q here)
      | inr other ↦ p.single k v (sym (lookup-put h k w' workers ∙ rw other) ∙ found) off
    ];
  }

  pub IsConsistent-erase :
      (h : ℕ)
      → IsConsistent n connections workers allowed
      → IsConsistent n (erase h connections) (erase h workers) (erase h allowed)
  IsConsistent-erase h p = record {
    below = erase-KeysBelow n h workers p.below;
    connections_below = erase-KeysBelow n h connections p.connections_below;
    paired =
        λ k. ground (arith, p.paired k, lookup-erase h k workers, lookup-erase h k connections);
    single = λ k v found off.
        p.single k v (ground (arith, lookup-erase h k workers))
          (ground (arith, lookup-erase h k workers, lookup-erase h k allowed));
  }

  pub IsConsistent-erase_absent :
      (h : ℕ)
      → IsConsistent n connections workers allowed
      → lookup h workers ≡ none
      → IsConsistent n (erase h connections) workers (erase h allowed)
  IsConsistent-erase_absent h p e = record {
    below = p.below;
    connections_below = erase-KeysBelow n h connections p.connections_below;
    paired = λ k. ground (arith, p.paired k, lookup-erase h k connections, e);
    single = λ k v found off. p.single k v found (ground (arith, lookup-erase h k allowed, e));
  }

  pub IsConsistent-add :
      (conn : ℕ) (multi : Bool)
      → IsConsistent n connections workers allowed
      → IsConsistent
          (suc n)
          (emplace n conn connections)
          (emplace n (record { conn = conn; queue = [] }) workers)
          (put n multi allowed)
  IsConsistent-add conn multi p =
      let fresh = lookup_fresh n n workers p.below (omega arith) in
      let w : ConnectionWorker = record { conn = conn; queue = [] } in
      record {
        below =
            emplace-KeysBelow (suc n) n _ workers (omega arith)
              (KeysBelow-mono n (suc n) workers (omega arith) p.below);
        connections_below =
            emplace-KeysBelow (suc n) n _ connections (omega arith)
              (KeysBelow-mono n (suc n) connections (omega arith) p.connections_below);
        paired = λ k. ground (
          arith,
          p.paired k,
          lookup-emplace n k w workers fresh,
          lookup-emplace n k conn connections
              (lookup_fresh n n connections p.connections_below (omega arith)),
        );
        single = λ k v found off. elim (Bool-cases (n == k)) [
          | inl same ↦
              let found' : some w ≡ some v =
                sym (lookup-emplace n k w workers fresh ∙ rw same) ∙ found in
              let eq : w ≡ v = ground (arith, found') in
              subst (λ (x : ConnectionWorker). All IsSingle x.queue) eq tt
          | inr other ↦
              p.single k v (ground (arith, lookup-emplace n k w workers fresh))
                (ground (arith, lookup-put n k multi allowed))
        ];
      }

pub IsConsistent-empty : (n : ℕ) (allowed : Map Bool) → IsConsistent n [] [] allowed
unfolding lookup
IsConsistent-empty n allowed = record {
  below = tt;
  connections_below = tt;
  paired = λ h. refl;
  single = λ h w e off. absurd (none-some w e);
}
