-- ===== src/Kvs/Client/Following.antt =====
-- internal/kvs/client.go: the order in which `call` asks the nodes, and a cluster with a leader.
use link_raft.Prelude.{
  tt, ℕ, suc, ◌<◌, ◌≡◌, refl, ap, subst, Str, str_eq, str_eq_iff, str_eq_refl, is_empty, true,
  false, not, Option, some, List, [], ◌∷◌, select, count, if◌then◌else◌, arith, Bool-cases,
}
use link_raft.Prelude.Results.{Result, ok}
use link_raft.Kvs.Server.{Reply}
use link_raft.Kvs.Client.{
  Client, CallError, Network, Rpc, client_for, first_of, candidates, Calling, ordered, Round,
  answered, hinted, exhausted, try_candidates, after_round, attempts, call, calling,
}
use link_raft.Kvs.Client.Rounds.{is_hint, Asked, Rule, Rule-try_candidates}

count-select :
    (a b : Str) (bs : List Str)
    → count a (select (λ c. not (str_eq c b)) bs) ≡ (if str_eq a b then 0 else count a bs)
unfolding count
count-select a b [] = ground arith
count-select a b (c ∷ bs) =
    ground (arith, str_eq_iff c b, str_eq_iff c a, str_eq_iff a b, count-select a b bs)

count-first_of :
    (a b : Str) (bs : List Str)
    → count a (first_of b bs) ≡ (if str_eq a b then (if is_empty b then 0 else 1) else count a bs)
unfolding count first_of
count-first_of a b bs = ground (arith, str_eq_iff b a, str_eq_iff a b, count-select a b bs)

-- The candidates are the known addresses, each as often as it is known, except that the last leader is
-- among them exactly once, known or not, and that without one the empty address is left out.
pub candidates-count :
    (a : Str) (c : Client)
    → count a (candidates c)
      ≡ (if str_eq a c.leader then (if is_empty c.leader then 0 else 1) else count a c.addrs)
unfolding candidates
candidates-count a c = count-first_of a c.leader c.addrs

-- The node at `leader` can be reached and answers as the leader, and no hint names another node.
pub record IsLed {W A : Type 0} (net : Network W) (rpc : Rpc W A) (leader : Str) : Type 0 where
  pub dials : (w : W) → net.dial leader w ≡ true
  pub answers : (w : W) → (r : Reply A) × ((rpc leader w).1 ≡ some r) × (r.not_leader ≡ false)
  pub hints :
      (a : Str) (w : W) (r : Reply A)
      → (rpc a w).1 ≡ some r
      → r.not_leader ≡ true
      → is_hint a r.leader_addr ≡ true
      → r.leader_addr ≡ leader

module _ {W A : Type 0} (net : Network W) (rpc : Rpc W A) (leader : Str)
    (led : IsLed net rpc leader) where
  client_for-leader :
      (a : Str) (w : W) (c d : Client)
      → str_eq a leader ≡ true
      → client_for net a w c ≡ (d, false)
      → ⊥
  unfolding client_for
  client_for-leader a w c d same e = grind (arith, str_eq_iff a leader, led.dials w)

  Asked-leader :
      (a : Str) (s : Calling W) (c : Client) (w : W) {o : Option (Reply A)}
      → str_eq a leader ≡ true
      → Asked net rpc a s c w o
      → (r : Reply A) × (o ≡ some r) × (r.not_leader ≡ false)
  Asked-leader a s c w same q =
      let (r, e, f) = led.answers s.world in
      (r, grind (arith, ap (λ p. p.1) q.replied, str_eq_iff a leader), f)

  -- The leader is still to be asked.
  IsAhead : List Str → Calling W → Type 0
  IsAhead bs s = 0 < count leader bs

  -- An answer, or the hint at the leader.
  Follows : Calling W × Round A → Type 0
  Follows (s, answered a) = Unit
  Follows (s, hinted) = (s.preferred ≡ leader) × (is_empty s.preferred ≡ false)
  Follows (s, exhausted) = ⊥

  IsAhead-next :
      (a : Str) (bs : List Str) (s t : Calling W)
      → IsAhead (a ∷ bs) s
      → (str_eq a leader ≡ true → ⊥)
      → IsAhead bs t
  unfolding IsAhead count
  IsAhead-next a bs s t h f = grind (arith, Bool-cases (str_eq a leader))

  Rule-Follows : Rule net rpc IsAhead Follows
  unfolding Follows IsAhead count
  Rule-Follows = record {
    done = λ s h. omega arith;
    skip = λ a bs s c h e.
        IsAhead-next a bs s s h λ same. client_for-leader a s.world s.client c same e;
    fail = λ a bs s c w h q.
        IsAhead-next a bs s s h λ same. let (r, e, f) = Asked-leader a s c w same q in cc;
    pass = λ a bs s c w r h q m n.
        IsAhead-next a bs s s h λ same. let (t, e, f) = Asked-leader a s c w same q in cc;
    hint = λ a bs s c w r h q m e. (
      led.hints a s.world r (ap (λ p. p.1) q.replied) m e,
      grind (arith, Bool-cases (is_empty r.leader_addr)),
    );
    answer = λ a bs s c w r h q m. tt;
  }

  -- The leader is the next to be asked.
  IsNext : List Str → Calling W → Type 0
  IsNext bs s = (cs : List Str) × (bs ≡ leader ∷ cs)

  IsAnswered : Calling W × Round A → Type 0
  IsAnswered (s, answered a) = Unit
  IsAnswered (s, hinted) = ⊥
  IsAnswered (s, exhausted) = ⊥

  next-leader :
      (a : Str) (bs : List Str) (s : Calling W) → IsNext (a ∷ bs) s → str_eq a leader ≡ true
  unfolding IsNext
  next-leader a bs s h = let (cs, e) = h in grind (arith, str_eq_refl leader)

  Rule-IsAnswered : Rule net rpc IsNext IsAnswered
  unfolding IsNext IsAnswered
  Rule-IsAnswered = record {
    done = λ s h. let (cs, e) = h in cc;
    skip = λ a bs s c h e. absurd (client_for-leader a s.world s.client c (next-leader a bs s h) e);
    fail = λ a bs s c w h q.
        let (r, e, f) = Asked-leader a s c w (next-leader a bs s h) q in absurd cc;
    pass = λ a bs s c w r h q m n.
        let (t, e, f) = Asked-leader a s c w (next-leader a bs s h) q in absurd cc;
    hint =
        λ a bs s c w r h q m e. let (t, e, f) = Asked-leader a s c w (next-leader a bs s h) q in cc;
    answer = λ a bs s c w r h q m. tt;
  }

  Answers : Result CallError A → Type 0
  Answers r = (a : A) × (r ≡ ok a)

  second-Answers :
      (n : ℕ) (s : Calling W) (r : Round A)
      → IsAnswered (s, r)
      → Answers (after_round net rpc r (attempts net rpc n) s).1
  unfolding IsAnswered Answers after_round
  second-Answers n s (answered a) h = (a, refl)
  second-Answers n s hinted h = absurd h
  second-Answers n s exhausted h = absurd h

  ordered-IsNext :
      (s : Calling W) → s.preferred ≡ leader → is_empty s.preferred ≡ false → IsNext (ordered s) s
  unfolding IsNext ordered first_of
  ordered-IsNext s e f = (
    select (λ b. not (str_eq b leader)) (candidates s.client),
    rw (e, subst (λ p. is_empty p ≡ false) e f) refl,
  )

  first-Answers :
      (n : ℕ) (s : Calling W) (r : Round A)
      → Follows (s, r)
      → Answers (after_round net rpc r (attempts net rpc (suc n)) s).1
  unfolding Follows Answers after_round attempts
  first-Answers n s (answered a) h = (a, refl)
  first-Answers n s hinted h =
      let (t, r) = try_candidates net rpc (ordered s) s in
      second-Answers n t r
        (Rule-try_candidates net rpc Rule-IsAnswered (ordered s) s (ordered-IsNext s h.0 h.1))
  first-Answers n s exhausted h = absurd h

  -- When one node can be reached and answers as the leader, every hint names it, and it is among the
  -- candidates, then a call returns a value, in the second attempt at the latest.
  pub attempts-led :
      (n : ℕ) (c : Client) (w : W)
      → 0 < count leader (candidates c)
      → (a : A) × ((attempts net rpc (suc (suc n)) (calling c w)).1 ≡ ok a)
  unfolding attempts ordered Answers IsAhead
  attempts-led n c w h =
      let (t, r) = try_candidates net rpc (candidates c) (calling c w) in
      first-Answers n t r (Rule-try_candidates net rpc Rule-Follows (candidates c) (calling c w) h)

  -- When one node can be reached and answers as the leader, every hint names it, and it is among the
  -- candidates, then a call returns a value and no error.
  pub call-led :
      (c : Client) (w : W)
      → 0 < count leader (candidates c)
      → (a : A) × ((call net rpc c w).1 ≡ ok a)
  unfolding call
  call-led = attempts-led 8
