-- ===== src/BatchCommand/Results.antt =====
-- The table of server results of a task, under writes.
use myapptest.Common.{
  ℤ, int_eq, int_beq_iff, Bool, true, false, Option, none, some, List, [], ◌∷◌, ◌≡◌, refl, arith,
  ◌==◌, if◌then◌else◌, sym, ◌∙◌, some_inj, ap,
}
use mathlib.Core.Path.{subst}
use myapptest.BatchCommand.{ServerResult, is_active_status}
use myapptest.BatchCommand.Task.{result_by_server, set_result}

pub found_server :
    (id : ℤ) (rs : List ServerResult) (r : ServerResult)
    → result_by_server id rs ≡ some r
    → r.server_id ≡ id
unfolding result_by_server
found_server id [] r h = cc
found_server id (s ∷ rs) r h = ground (arith, int_beq_iff s.server_id id, found_server id rs r)

abbrev pub replaced : ServerResult → Option ServerResult → Option ServerResult
replaced new none = none
replaced new (some r) = some new

pub result_by_server-set_result :
    (id j : ℤ) (new : ServerResult) (rs : List ServerResult)
    → new.server_id ≡ id
    → result_by_server j (set_result id new rs)
      ≡ (if id == j then replaced new (result_by_server j rs) else result_by_server j rs)
unfolding result_by_server set_result
result_by_server-set_result id j new [] h = ground arith
result_by_server-set_result id j new (r ∷ rs) h = ground (
  arith,
  int_beq_iff id j,
  int_beq_iff r.server_id id,
  int_beq_iff r.server_id j,
  int_beq_iff new.server_id j,
  result_by_server-set_result id j new rs h,
)

-- A relation of a result to what becomes of it. It holds of a result that stays, and along changes
-- one after the other, and the server stays.
pub record Change : Type 1 where
  pub Becomes : ServerResult → ServerResult → Type 0
  pub stays : (r : ServerResult) → Becomes r r
  pub follows : (a b c : ServerResult) → Becomes a b → Becomes b c → Becomes a c
  pub same_server : (a b : ServerResult) → Becomes a b → b.server_id ≡ a.server_id

module _ (C : Change) where
  open C use {Becomes, stays, follows, same_server}

  abbrev pub Kept : Option ServerResult → Option ServerResult → Type 0
  Kept none b = b ≡ none
  Kept (some r) b = (r' : ServerResult) × (b ≡ some r') × Becomes r r'

  -- Every server's result becomes the one that the new table has for it.
  abbrev pub KeptAll : List ServerResult → List ServerResult → Type 0
  KeptAll rs rs' = (j : ℤ) → Kept (result_by_server j rs) (result_by_server j rs')

  Kept-refl : (a : Option ServerResult) → Kept a a
  Kept-refl none = refl
  Kept-refl (some r) = (r, refl, stays r)

  pub KeptAll-refl : (rs : List ServerResult) → KeptAll rs rs
  KeptAll-refl rs j = Kept-refl (result_by_server j rs)

  Kept-trans : (a b c : Option ServerResult) → Kept a b → Kept b c → Kept a c
  Kept-trans none none c p q = q
  Kept-trans none (some r) c p q = cc
  Kept-trans (some r) none c (r', e, v) q = cc
  Kept-trans (some r) (some s) c (r', e, v) (s', f, w) =
      (s', f, follows r r' s' v (subst (λ x. Becomes x s') (some_inj e) w))

  pub KeptAll-trans :
      (rs rs' rs'' : List ServerResult) → KeptAll rs rs' → KeptAll rs' rs'' → KeptAll rs rs''
  KeptAll-trans rs rs' rs'' p q j = Kept-trans _ _ _ (p j) (q j)

  replaced-Kept :
      (b : Bool) (o : Option ServerResult) (r r' : ServerResult)
      → (b ≡ true → o ≡ some r)
      → Becomes r r'
      → Kept o (if b then replaced r' o else o)
  replaced-Kept true none r r' p v = refl
  replaced-Kept true (some s) r r' p v =
      (r', refl, subst (λ x. Becomes x r') (sym (some_inj (p refl))) v)
  replaced-Kept false none r r' p v = refl
  replaced-Kept false (some s) r r' p v = (s, refl, stays s)

  -- Writing what the result of a server becomes keeps the table.
  pub set_result-KeptAll :
      (id : ℤ) (r r' : ServerResult) (rs : List ServerResult)
      → result_by_server id rs ≡ some r
      → Becomes r r'
      → KeptAll rs (set_result id r' rs)
  set_result-KeptAll id r r' rs found v j =
      rw (result_by_server-set_result id j r' rs (same_server r r' v ∙ found_server id rs r found))
        (replaced-Kept (id == j) (result_by_server j rs) r r'
          (λ h. ap (λ k. result_by_server k rs) (sym ((int_beq_iff id j).0 h)) ∙ found) v)

module _ (C D : Change) (weaker : (r r' : ServerResult) → C.Becomes r r' → D.Becomes r r') where
  Kept-map : (a b : Option ServerResult) → Kept C a b → Kept D a b
  Kept-map none b p = p
  Kept-map (some r) b (r', e, v) = (r', e, weaker r r' v)

  pub KeptAll-map : (rs rs' : List ServerResult) → KeptAll C rs rs' → KeptAll D rs rs'
  KeptAll-map rs rs' p j = Kept-map (result_by_server j rs) (result_by_server j rs') (p j)

-- Once it is not active, a result changes in the server's name and host alone.
pub record Evolves (r r' : ServerResult) : Type 0 where
  pub server : r'.server_id ≡ r.server_id
  pub final :
      is_active_status r.status ≡ false
      → r' ≡ record r { server_name = r'.server_name; host = r'.host }

pub Evolves-trans : (a b c : ServerResult) → Evolves a b → Evolves b c → Evolves a c
Evolves-trans a b c p q = record {
  server = q.server ∙ p.server;
  final = λ h. ground (arith, p.final h, q.final);
}

abbrev pub evolving : Change
evolving = record {
  Becomes = Evolves;
  stays = λ r. record { server = refl; final = λ h. refl };
  follows = Evolves-trans;
  same_server = λ a b v. v.server;
}

-- A change that also leaves the output alone.
pub record IsSilent (r r' : ServerResult) : Type 0 where
  pub evolves : Evolves r r'
  pub stdout_kept : r'.stdout ≡ r.stdout
  pub stderr_kept : r'.stderr ≡ r.stderr
  pub truncation_kept : r'.output_truncated ≡ r.output_truncated

pub IsSilent-trans : (a b c : ServerResult) → IsSilent a b → IsSilent b c → IsSilent a c
IsSilent-trans a b c p q = record {
  evolves = Evolves-trans a b c p.evolves q.evolves;
  stdout_kept = q.stdout_kept ∙ p.stdout_kept;
  stderr_kept = q.stderr_kept ∙ p.stderr_kept;
  truncation_kept = q.truncation_kept ∙ p.truncation_kept;
}

abbrev pub silent : Change
silent = record {
  Becomes = IsSilent;
  stays = λ r. record {
    evolves = record { server = refl; final = λ h. refl };
    stdout_kept = refl;
    stderr_kept = refl;
    truncation_kept = refl;
  };
  follows = IsSilent-trans;
  same_server = λ a b v. v.evolves.server;
}
