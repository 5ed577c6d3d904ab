-- ===== src/Database/Keys/Lease/Safety.antt =====
-- The lease of Database/Keys/Lease.antt keeps a key and its backend together.
use plane.Prelude.{
  All, All-map, List, Option, [], arith, none, refl, some, ℕ, ◌*◌, ◌++◌, ◌+◌, ◌<◌, ◌∷◌, ◌≡◌, ◌≤◌,
}
use plane.Protocol.{second, KeyDeadlines}
use plane.Database.Keys.{key_lease_expiration, key_lease_hard_terminate_after, renewed_deadlines}
use plane.Database.Keys.Lease.{
  Lease, Alive, Step, Reach, Safe, SafeSpawn, Holds, Recent, IsSafe, created, pass, start, ask,
  renew, refuse, extend, drop, stop, remove, here, next,
}

Safe-later :
    (drift clock t : ℕ) (e : Option ℕ) (d : KeyDeadlines)
    → Safe drift clock e d
    → Safe drift (clock + t) e d
Safe-later drift clock t none d h = omega arith
Safe-later drift clock t (some e) d h = h

Safe-removed :
    (drift clock e : ℕ) (d : KeyDeadlines)
    → e < clock
    → Safe drift clock (some e) d
    → Safe drift clock none d
Safe-removed drift clock e d lt h = omega arith

Safe-renewed :
    (drift clock e : ℕ) (d : KeyDeadlines)
    → e ≤ clock + key_lease_expiration
    → Safe drift clock (some e) d
    → Safe drift clock (some (clock + key_lease_expiration)) d
Safe-renewed drift clock e d le h = omega arith

All-without {ℓ κ} :
    {A : Type ℓ} (P : A → Type κ) (xs : List A) (y : A) (zs : List A)
    → All P (xs ++ y ∷ zs)
    → P y × All P (xs ++ zs)
All-without P [] y zs h = h
All-without P (x ∷ xs) y zs h = let (py, rest) = All-without P xs y zs h.1 in (py, (h.0, rest))

module _ (drift grace : ℕ) (grace_short : grace ≤ 10 * second) where
  pass-IsSafe :
      (l : Lease) (t : ℕ)
      → Alive drift grace (record l { clock = l.clock + t })
      → IsSafe drift l
      → IsSafe drift (record l { clock = l.clock + t })
  pass-IsSafe l t alive v = record {
    holds = holds l.expires_at l.running v.holds (λ d e. alive d e);
    recent = recent l.expires_at v.recent;
    spawn_safe = spawned l.expires_at l.spawn_sent v.spawn_safe;
    asked = All-map _ _ (λ r h. omega arith) l.requests v.asked;
    answered =
        All-map _ _ (λ d h. Safe-later drift l.clock t l.expires_at d h) l.responses v.answered;
  }
    where
      holds :
          (e : Option ℕ) (r : Option KeyDeadlines)
          → Holds drift l.clock e r
          → ((d : KeyDeadlines) → r ≡ some d → l.clock + t + drift ≤ d.hard_terminate_at + grace)
          → Holds drift (l.clock + t) e r
      holds e none h a = tt
      holds none (some d) h a = h
      holds (some e) (some d) h a = (omega (arith, a d refl), h.1)

      recent : (e : Option ℕ) → Recent l.clock e → Recent (l.clock + t) e
      recent none h = h
      recent (some e) h = omega arith

      spawned :
          (e : Option ℕ) (s : Option KeyDeadlines)
          → SafeSpawn drift l.clock e s
          → SafeSpawn drift (l.clock + t) e s
      spawned e none h = h
      spawned e (some d) h = (Safe-later drift l.clock t e d h.0, h.1)

  Step-IsSafe : {l m : Lease} → Step drift grace l m → IsSafe drift l → IsSafe drift m
  Step-IsSafe {l} (pass t e alive) v = rw e (pass-IsSafe l t (rw e at alive) v)
  Step-IsSafe {l} (start d sent on_time e) v = rw e (record {
    holds = holds l.expires_at (rw sent at v.spawn_safe);
    recent = v.recent;
    spawn_safe = tt;
    asked = v.asked;
    answered = v.answered;
  })
    where
      holds : (x : Option ℕ) → SafeSpawn drift l.clock x (some d) → Holds drift l.clock x (some d)
      holds none h = omega arith
      holds (some x) h = (omega arith, h.0)
  Step-IsSafe {l} (ask d r e) v = rw e (record {
    holds = v.holds;
    recent = v.recent;
    spawn_safe = v.spawn_safe;
    asked = (omega arith, v.asked);
    answered = v.answered;
  })
  Step-IsSafe {l} (renew before t after x q k e) v =
      let recent : x ≤ l.clock + key_lease_expiration = rw k at v.recent in
      let (asked, others) = All-without _ before t after (rw q at v.asked) in
      rw e (record {
        holds = holds recent l.running (rw k at v.holds);
        recent = omega arith;
        spawn_safe = spawned recent l.spawn_sent (rw k at v.spawn_safe);
        asked = others;
        answered = (
          renewed asked,
          All-map _ _ (λ d h. Safe-renewed drift l.clock x d recent h) l.responses
              (rw k at v.answered),
        );
      })
    where
      later : ℕ
      later = l.clock + key_lease_expiration

      renewed : t ≤ l.clock + drift → Safe drift l.clock (some later) (renewed_deadlines t)
      renewed h = unfold renewed_deadlines in omega arith

      holds :
          x ≤ later
          → (r : Option KeyDeadlines) → Holds drift l.clock (some x) r
          → Holds drift l.clock (some later) r
      holds le none h = tt
      holds le (some d) h = (omega arith, omega arith)

      spawned :
          x ≤ later
          → (s : Option KeyDeadlines) → SafeSpawn drift l.clock (some x) s
          → SafeSpawn drift l.clock (some later) s
      spawned le none h = tt
      spawned le (some d) h = (omega arith, h.1)
  Step-IsSafe {l} (refuse before t after q e) v = rw e (record {
    holds = v.holds;
    recent = v.recent;
    spawn_safe = v.spawn_safe;
    asked = (All-without _ before t after (rw q at v.asked)).1;
    answered = v.answered;
  })
  Step-IsSafe {l} (extend before d after old q r e) v =
      let (safe, others) = All-without _ before d after (rw q at v.answered) in
      rw e (record {
        holds = holds l.expires_at (rw r at v.holds) safe;
        recent = v.recent;
        spawn_safe = v.spawn_safe;
        asked = v.asked;
        answered = others;
      })
    where
      holds :
          (x : Option ℕ)
          → Holds drift l.clock x (some old)
          → Safe drift l.clock x d
          → Holds drift l.clock x (some d)
      holds none h safe = h
      holds (some x) h safe = (h.0, safe)
  Step-IsSafe {l} (drop before d after q r e) v = rw e (record {
    holds = v.holds;
    recent = v.recent;
    spawn_safe = v.spawn_safe;
    asked = v.asked;
    answered = (All-without _ before d after (rw q at v.answered)).1;
  })
  Step-IsSafe {l} (stop e) v = rw e (record {
    holds = tt;
    recent = v.recent;
    spawn_safe = v.spawn_safe;
    asked = v.asked;
    answered = v.answered;
  })
  Step-IsSafe {l} (remove x k lt e) v = rw e (record {
    holds = holds l.running (rw k at v.holds);
    recent = tt;
    spawn_safe = spawned l.spawn_sent (rw k at v.spawn_safe);
    asked = v.asked;
    answered =
        All-map _ _ (λ d h. Safe-removed drift l.clock x d lt h) l.responses (rw k at v.answered);
  })
    where
      holds :
          (r : Option KeyDeadlines) → Holds drift l.clock (some x) r → Holds drift l.clock none r
      holds none h = tt
      holds (some d) h = omega arith

      spawned :
          (s : Option KeyDeadlines)
          → SafeSpawn drift l.clock (some x) s
          → SafeSpawn drift l.clock none s
      spawned none h = tt
      spawned (some d) h = (Safe-removed drift l.clock x d lt h.0, h.1)

  Reach-IsSafe : {l m : Lease} → Reach drift grace l m → IsSafe drift l → IsSafe drift m
  Reach-IsSafe here v = v
  Reach-IsSafe (next r s) v = Step-IsSafe s (Reach-IsSafe r v)

none-running : (drift clock : ℕ) (r : Option KeyDeadlines) → Holds drift clock none r → r ≡ none
none-running drift clock none h = refl
none-running drift clock (some d) h = absurd h

-- Mutual exclusion by the lease. A backend is created for a drone, with deadlines counted from a
-- local time that is not after the drone's time at the creation. If the drone does not start it
-- after its soft deadline, and kills it within ten seconds of its hard deadline, then in every
-- interleaving of renewals, late or lost messages and the passing of time, the backend does not
-- run any more when a controller has removed its key.
pub removed_key_not_running :
    (drift grace now local_time : ℕ) (d : KeyDeadlines) (l : Lease)
    → grace ≤ 10 * second
    → local_time ≤ now + drift
    → d.hard_terminate_at ≤ local_time + key_lease_hard_terminate_after
    → d.soft_terminate_at ≤ d.hard_terminate_at
    → Reach drift grace (created now d) l
    → l.expires_at ≡ none
    → l.running ≡ none
removed_key_not_running drift grace now local_time d l short behind hard ordered r gone =
    none-running drift l.clock l.running (rw gone at (safe.holds))
  where
    safe : IsSafe drift l
    safe = Reach-IsSafe drift grace short r (record {
      holds = tt;
      recent = omega arith;
      spawn_safe = (omega arith, ordered);
      asked = tt;
      answered = tt;
    })
