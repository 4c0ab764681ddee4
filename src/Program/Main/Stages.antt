-- ===== src/Program/Main/Stages.antt =====
-- The stages of the calls that `main` of peat-sapient-bridge/src/main.rs makes.
use peat_sapient.Base.{ℕ, ◌≤◌, ◌≡◌, refl, sym, Bool, true, false, ◌||◌, List, [], ◌∷◌, ◌++◌, arith}
use peat_sapient.Connection.{Outcome, done, failed, is_done}
use peat_sapient.Connection.Tls.{Rustls}
use peat_sapient.Program.Start.{
  Call, make_tempdir, start_sync, register_sapient, register_tak, wait_ctrl_c, stop_tak,
  stop_sapient, create_backend, spawn_dial, start_sapient, start_tak, start_fanout, Run, then_run,
}

or_assoc : (a b c : Bool) → ((a || b) || c) ≡ (a || (b || c))
or_assoc true b c = refl
or_assoc false b c = refl

module _ {lib : Rustls} where
  -- The storage, the mesh and its peers, the transports, the fan-out, the wait for the signal, and
  -- the stops in the reverse order of the starts.
  abbrev pub stage : Call lib → ℕ
  stage make_tempdir = 0
  stage (create_backend formation_id key bind) = 1
  stage start_sync = 2
  stage (spawn_dial id_hex addrs) = 3
  stage (start_sapient role tls name) = 4
  stage (start_tak config) = 5
  stage register_sapient = 6
  stage register_tak = 7
  stage (start_fanout collections) = 8
  stage wait_ctrl_c = 9
  stage stop_tak = 10
  stage stop_sapient = 11

  -- Calls in the order of their stages, from the one to the other.
  abbrev pub Staged : ℕ → ℕ → List (Call lib) → Type 0
  Staged lo hi [] = lo ≤ hi
  Staged lo hi (c ∷ cs) = (lo ≤ stage c) × Staged (stage c) hi cs

  abbrev pub is_stop : Call lib → Bool
  is_stop stop_sapient = true
  is_stop make_tempdir = false
  is_stop (create_backend formation_id key bind) = false
  is_stop start_sync = false
  is_stop (spawn_dial id_hex addrs) = false
  is_stop (start_sapient role tls name) = false
  is_stop (start_tak config) = false
  is_stop register_sapient = false
  is_stop register_tak = false
  is_stop (start_fanout collections) = false
  is_stop wait_ctrl_c = false
  is_stop stop_tak = false

  -- One of the calls stops the SAPIENT transport.
  abbrev pub stops : List (Call lib) → Bool
  stops [] = false
  stops (c ∷ cs) = is_stop c || stops cs

  pub Staged-append :
      (lo mid hi : ℕ) (xs ys : List (Call lib))
      → Staged lo mid xs
      → Staged mid hi ys
      → Staged lo hi (xs ++ ys)
  Staged-append lo mid hi [] [] h k = omega arith
  Staged-append lo mid hi [] (y ∷ ys) h k = (omega arith, k.1)
  Staged-append lo mid hi (x ∷ xs) ys h k = (h.0, Staged-append (stage x) mid hi xs ys h.1 k)

  pub Staged-wider :
      (lo mid hi : ℕ) (xs : List (Call lib)) → Staged lo mid xs → mid ≤ hi → Staged lo hi xs
  Staged-wider lo mid hi [] h k = omega arith
  Staged-wider lo mid hi (x ∷ xs) h k = (h.0, Staged-wider (stage x) mid hi xs h.1 k)

  Staged-within : (lo hi : ℕ) (xs : List (Call lib)) → Staged lo hi xs → lo ≤ hi
  Staged-within lo hi [] h = h
  Staged-within lo hi (x ∷ xs) h = let rest = Staged-within (stage x) hi xs h.1 in omega arith

  pub stops-append : (xs ys : List (Call lib)) → stops (xs ++ ys) ≡ (stops xs || stops ys)
  stops-append [] ys = refl
  stops-append (x ∷ xs) ys =
      rw (stops-append xs ys) (sym (or_assoc (is_stop x) (stops xs) (stops ys)))

  -- A part of the work with calls of these stages, none of which stops the SAPIENT transport.
  pub record Part {A : Type 0} (lo hi : ℕ) (r : Run lib A) : Type 0 where
    pub staged : Staged lo hi r.0
    pub kept : stops r.0 ≡ false

  -- The rest of the work: it stops the SAPIENT transport where it does not fail.
  pub record Rest {A : Type 0} (lo : ℕ) (r : Run lib A) : Type 0 where
    pub staged : Staged lo 11 r.0
    pub stopped : stops r.0 ≡ is_done r.1

  pub then_run-Part :
      {A B : Type 0} (lo mid hi : ℕ) (r : Run lib A) (f : A → Run lib B)
      → Part lo mid r
      → mid ≤ hi
      → ((a : A) → Part mid hi (f a))
      → Part lo hi (then_run lib r f)
  unfolding then_run
  then_run-Part lo mid hi (calls, done a) f h k rest = record {
    staged = Staged-append lo mid hi calls (f a).0 h.staged (rest a).staged;
    kept = rw (stops-append calls (f a).0, h.kept) ((rest a).kept);
  }
  then_run-Part lo mid hi (calls, failed e) f h k rest = record {
    staged = Staged-wider lo mid hi calls h.staged k;
    kept = h.kept;
  }

  pub then_run-Rest :
      {A B : Type 0} (lo mid : ℕ) (r : Run lib A) (f : A → Run lib B)
      → Part lo mid r
      → mid ≤ 11
      → ((a : A) → Rest mid (f a))
      → Rest lo (then_run lib r f)
  unfolding then_run
  then_run-Rest lo mid (calls, done a) f h k rest = record {
    staged = Staged-append lo mid 11 calls (f a).0 h.staged (rest a).staged;
    stopped = rw (stops-append calls (f a).0, h.kept) ((rest a).stopped);
  }
  then_run-Rest lo mid (calls, failed e) f h k rest = record {
    staged = Staged-wider lo mid 11 calls h.staged k;
    stopped = h.kept;
  }

  pub Part-pure : {A : Type 0} (lo hi : ℕ) (r : Outcome A) → lo ≤ hi → Part lo hi ([], r)
  Part-pure lo hi r h = record { staged = h; kept = refl }
