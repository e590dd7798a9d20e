-- ===== src/Controllers/Items.antt =====
-- pkg/controller/generic.go: what a worker does with one item of the queue.
use aerospike_operator.Prelude.{
  ◌≡◌, ◌≢◌, refl, sym, subst, ap, Bool, true, Option, none, some, List, [], ◌∷◌, ◌++◌, map, Text,
  Result, ok, err, Occurs, inl, inr, ◌↔◌,
}
use mathlib.Core.List.{append_assoc, append-nil}
use aerospike_operator.Controllers.Worker.{
  Item, key, other, Work, got, done, forgotten, added, reported, within, expected_string,
  error_syncing, Controller, Working, syncing, finally, report, process_item, process_got,
  process_next_work_item,
}
use aerospike_operator.Action.{emit, attempt, ◌>>=◌, ◌>>◌}

module _ {O W E : Type 0} where
  -- Every item that is got is given back by Done, before the next one is got, and nothing else is.
  unfoldable pub AllDone : Option (Item O) → List (Work O W E) → Type 0
  AllDone none [] = Unit
  AllDone (some i) [] = ⊥
  AllDone none (got i ∷ log) = AllDone (some i) log
  AllDone (some j) (got i ∷ log) = ⊥
  AllDone none (done i ∷ log) = ⊥
  AllDone (some j) (done i ∷ log) = (j ≡ i) × AllDone none log
  AllDone held (forgotten i ∷ log) = AllDone held log
  AllDone held (added k ∷ log) = AllDone held log
  AllDone held (reported e ∷ log) = AllDone held log
  AllDone held (within w ∷ log) = AllDone held log

  AllDone-within :
      (i : Item O) (log : List W) (rest : List (Work O W E))
      → AllDone (some i) rest
      → AllDone (some i) (map within log ++ rest)
  unfolding AllDone
  AllDone-within i [] rest h = h
  AllDone-within i (w ∷ log) rest h = AllDone-within i log rest h

  pub AllDone-append :
      (held : Option (Item O)) (first rest : List (Work O W E))
      → AllDone held first
      → AllDone none rest
      → AllDone held (first ++ rest)
  unfolding AllDone
  AllDone-append none [] rest h g = g
  AllDone-append (some j) [] rest h g = absurd h
  AllDone-append none (got i ∷ log) rest h g = AllDone-append (some i) log rest h g
  AllDone-append (some j) (got i ∷ log) rest h g = absurd h
  AllDone-append none (done i ∷ log) rest h g = absurd h
  AllDone-append (some j) (done i ∷ log) rest (e, h) g = (e, AllDone-append none log rest h g)
  AllDone-append held (forgotten i ∷ log) rest h g = AllDone-append held log rest h g
  AllDone-append held (added k ∷ log) rest h g = AllDone-append held log rest h g
  AllDone-append held (reported e ∷ log) rest h g = AllDone-append held log rest h g
  AllDone-append held (within w ∷ log) rest h g = AllDone-append held log rest h g

  -- The calls of an item whose handler has run.
  abbrev calls : Text → Result E (Unit {0}) → List W → List (Work O W E)
  calls k (ok u) log = got (key k) ∷ map within log ++ forgotten (key k) ∷ done (key k) ∷ []
  calls k (err e) log =
      got (key k) ∷ map within log ++ done (key k) ∷ reported (error_syncing k e) ∷ []

  Occurs-within :
      (x : Work O W E) (log : List W) (rest : List (Work O W E))
      → ((w : W) → x ≢ within w)
      → Occurs x (map within log ++ rest)
      → Occurs x rest
  Occurs-within x [] rest h o = o
  Occurs-within x (w ∷ log) rest h (inl e) = absurd (h w e)
  Occurs-within x (w ∷ log) rest h (inr o) = Occurs-within x log rest h o

  within-Occurs :
      (x : Work O W E) (log : List W) (rest : List (Work O W E))
      → Occurs x rest
      → Occurs x (map within log ++ rest)
  within-Occurs x [] rest o = o
  within-Occurs x (w ∷ log) rest o = inr (within-Occurs x log rest o)

module _ {S O W E : Type 0} where
  -- The handler of an item has nothing more to do with it.
  abbrev pub IsSettled : Controller S O W E → Item O → S → Type 0
  IsSettled c (key k) s = (c.sync_handler k s).0 ≡ ok tt
  IsSettled c (other o) s = Unit

  -- The calls for one item: Get and Done in pairs, no AddRateLimited, and Forget if the item is settled.
  abbrev pub HandlesOnce : Controller S O W E → Item O → S → List (Work O W E) → Type 0
  HandlesOnce c i s log =
      AllDone none log
      × ((k : Text) → ¬ Occurs (added k) log)
      × (Occurs (forgotten i) log ↔ IsSettled c i s)

module _ {S : Type 0} (O : Type 0) {W E : Type 0} where
  -- The log of an item whose handler has returned `x`.
  abbrev after_sync : Text → Result E (Unit {0}) × (List W × S) → Working S O W E Bool
  after_sync k x =
      emit (got (key k))
      >> attempt (
          finally ((λ _. (syncing k x.0, (map within x.1.0, x.1.1))) >> emit (forgotten (key k)))
            (done (key k)))
      >>= report

  after_sync-log :
      (k : Text) (x : Result E (Unit {0}) × (List W × S)) (s : S)
      → after_sync k x s ≡ (ok true, (calls k x.0 x.1.0, x.1.1))
  after_sync-log k (ok u, (log, t)) s = simp (append_assoc, append-nil)
  after_sync-log k (err e, (log, t)) s = simp (append_assoc, append-nil)

module _ (O : Type 0) {W E : Type 0} where
  calls-AllDone :
      (k : Text) (r : Result E (Unit {0})) (log : List W) → AllDone {O = O} none (calls k r log)
  unfolding AllDone
  calls-AllDone k (ok u) log = AllDone-within (key k) log _ (refl, tt)
  calls-AllDone k (err e) log = AllDone-within (key k) log _ (refl, tt)

  calls-not_added :
      (k j : Text) (r : Result E (Unit {0})) (log : List W)
      → ¬ Occurs {A = Work O W E} (added j) (calls k r log)
  calls-not_added k j (ok u) log (inl e) = absurd (cc)
  calls-not_added k j (ok u) log (inr o) = elim (Occurs-within (added j) log _ (λ w. cc) o) [
    | inl e ↦ absurd (cc)
    | inr later ↦ elim later [ inl e ↦ absurd (cc) | inr last ↦ elim last [ ] ]
  ]
  calls-not_added k j (err x) log (inl e) = absurd (cc)
  calls-not_added k j (err x) log (inr o) = elim (Occurs-within (added j) log _ (λ w. cc) o) [
    | inl e ↦ absurd (cc)
    | inr later ↦ elim later [ inl e ↦ absurd (cc) | inr last ↦ elim last [ ] ]
  ]

  calls-forgotten :
      (k : Text) (r : Result E (Unit {0})) (log : List W)
      → Occurs {A = Work O W E} (forgotten (key k)) (calls k r log) ↔ (r ≡ ok tt)
  calls-forgotten k (ok u) log =
      (λ o. refl, λ e. inr (within-Occurs (forgotten (key k)) log _ (inl refl)))
  calls-forgotten k (err x) log = (
    λ o. elim o [
      | inl e ↦ absurd (cc)
      | inr rest ↦ elim (Occurs-within (forgotten (key k)) log _ (λ w. cc) rest) [
        | inl e ↦ absurd (cc)
        | inr later ↦ elim later [ inl e ↦ absurd (cc) | inr last ↦ elim last [ ] ]
      ]
    ],
    λ e. absurd (cc),
  )

  other-not_added :
      (o : O) (k : Text)
      → ¬ Occurs {A = Work O W E}
          (added k)
          (got (other o) ∷ forgotten (other o) ∷ reported expected_string ∷ done (other o) ∷ [])
  other-not_added o k (inl e) = absurd (cc)
  other-not_added o k (inr (inl e)) = absurd (cc)
  other-not_added o k (inr (inr (inl e))) = absurd (cc)
  other-not_added o k (inr (inr (inr (inl e)))) = absurd (cc)
  other-not_added o k (inr (inr (inr (inr absent)))) = elim absent [ ]

module _ {S O W E : Type 0} (c : Controller S O W E) where
  pub process_got-some :
      (i : Item O) (s : S)
      → ((process_got c (some i) s).0 ≡ ok true) × HandlesOnce c i s (process_got c (some i) s).1.0
  unfolding process_item AllDone
  process_got-some (key k) s =
      let x = c.sync_handler k s in
      subst (λ run. (run.0 ≡ ok true) × HandlesOnce c (key k) s run.1.0)
        (sym (after_sync-log O k x s))
        (
          refl,
          (
            calls-AllDone O k x.0 x.1.0,
            λ j. calls-not_added O k j x.0 x.1.0,
            calls-forgotten O k x.0 x.1.0,
          ),
        )
  process_got-some (other o) s =
      (refl, ((refl, tt), other-not_added O o, (λ x. tt, λ x. inr (inl refl))))

  -- What the handler of an item leaves of the state.
  pub process_got-key :
      (k : Text) (s : S) → (process_got c (some (key k)) s).1.1 ≡ (c.sync_handler k s).1.1
  unfolding process_item
  process_got-key k s = ap (λ run. run.1.1) (after_sync-log O k (c.sync_handler k s) s)

  -- A worker that gets an item goes on. It calls Done once, after the handling; it calls Forget for the
  -- item exactly when the handler succeeds or the item is not a string; and it puts nothing on the
  -- queue, even where the handler fails.
  pub process_next_work_item-once :
      (i : Item O) (s t : S)
      → c.get s ≡ (some i, t)
      → ((process_next_work_item c s).0 ≡ ok true)
        × HandlesOnce c i t (process_next_work_item c s).1.0
  unfolding process_next_work_item
  process_next_work_item-once i s t e = rw e (process_got-some i t)
