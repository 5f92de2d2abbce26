-- ===== src/Watcher/Rounds.antt =====
-- The trampoline `step` of kube-runtime/src/watcher.rs, behind a reflector.
use kube.Prelude.{
  Bool, ◌<◌, ◌∙◌, EqLaws, ◌≡◌, refl, ℕ, zero, suc, Option, none, some, Result, ok, err, ◌>>=◌,
  arith, inl, inr, Option-cases, ◌≤◌,
}
use kube.Core.Resource.{Resource, ObjectList}
use kube.Reflector.Store.{Writer}
use kube.Watcher.Events.{restarted}
use kube.Watcher.Options.{Config, to_list_params}
use kube.Watcher.{
  ApiMode, ClientErr, Error, Fault, State, empty, init_listed, Item, Answer, bounce, Stepped,
  on_list, step_trampolined, step,
}
use kube.Watcher.Server.{ServerLaws}
use kube.Watcher.Follow.{Follows, lost_after, inspect, step_trampolined-Reflected}

module _ {K : Type 0} (r : Resource K) (a : ApiMode K) (wc : Config) where
  bounce-more :
      (again again' : State a.Stream → a.World → Answer r a) (stepped : Stepped r a)
      {result : Item r a × State a.Stream × a.World}
      → ((state : State a.Stream) (w : a.World)
          → again state w ≡ ok result
          → again' state w ≡ ok result)
      → bounce r a again stepped ≡ ok result
      → bounce r a again' stepped ≡ ok result
  bounce-more again again' (some item, state, w) keep h = h
  bounce-more again again' (none, state, w) keep h = keep state w h

  bind-more :
      (m : Result Fault (Stepped r a)) (again again' : State a.Stream → a.World → Answer r a)
      {result : Item r a × State a.Stream × a.World}
      → ((state : State a.Stream) (w : a.World)
          → again state w ≡ ok result
          → again' state w ≡ ok result)
      → (m >>= bounce r a again) ≡ ok result
      → (m >>= bounce r a again') ≡ ok result
  bind-more (ok stepped) again again' keep h = bounce-more again again' stepped keep h
  bind-more (err fault) again again' keep h = cc

  -- If a call returns a result within some rounds, it returns the same with more rounds.
  step_mono :
      (rounds more : ℕ) (state : State a.Stream) (world : a.World)
      {result : Item r a × State a.Stream × a.World}
      → rounds ≤ more
      → step r a rounds wc state world ≡ ok result
      → step r a more wc state world ≡ ok result
  unfolding step
  step_mono zero more state world le h = cc
  step_mono (suc rounds) zero state world le h = absurd (omega arith)
  step_mono (suc rounds) (suc more) state world le h =
      bind-more (step_trampolined r a wc state world) (step r a rounds wc) (step r a more wc)
        (λ s w. step_mono rounds more s w (omega arith)) h

  list_answers :
      (rounds : ℕ) (answer : Result ClientErr (ObjectList K) × a.World)
      → (item : Item r a) × (state : State a.Stream) × (w : a.World) × (bounce r a
            (step r a rounds wc)
            (on_list r a answer)
          ≡ ok (item, state, w))
  unfolding on_list
  list_answers rounds (err x, w) = (_, _, _, refl)
  list_answers rounds (ok l, w) = elim (Option-cases l.resource_version) [
    | inl missing ↦ (err Error.no_resource_version, empty, w, rw (missing, on_list))
    | inr (v, found) ↦ (ok (restarted l.items), init_listed v, w, rw (found, on_list))
  ]

  -- Where a list is due, one round is enough for an answer.
  step-empty :
      (rounds : ℕ) (world : a.World)
      → (item : Item r a) × (state : State a.Stream) × (w : a.World) × (step r a
            (suc rounds)
            wc
            empty
            world
          ≡ ok (item, state, w))
  unfolding step step_trampolined
  step-empty rounds world = list_answers rounds (a.list (to_list_params wc) world)

module _ {K : Type 0} {r : Resource K} ⦃e : EqLaws r.DynamicType⦄ {a : ApiMode K} {wc : Config}
    {dyntype : r.DynamicType} (laws : ServerLaws r a wc dyntype) where
  abbrev lost_bounce :
      (Bool → State a.Stream → a.World → Bool) → Bool → Result Fault (Stepped r a) → Bool
  lost_bounce again lost (ok (none, state, world)) = again lost state world
  lost_bounce again lost (ok (some item, state, world)) = lost
  lost_bounce again lost (err fault) = lost

  -- Whether an event was lost since the last list, once a call is done.
  unfoldable pub lost_call : ℕ → Bool → State a.Stream → a.World → Bool
  lost_call zero lost state world = lost
  lost_call (suc rounds) lost state world =
      lost_bounce (lost_call rounds) (lost_after laws lost state world)
        (step_trampolined r a wc state world)

  abbrev pub Delivered :
      Bool → Writer r → Result Fault (Item r a × State a.Stream × a.World) → Type 0
  Delivered lost w answer =
      (item : Item r a) × (state : State a.Stream) × (world : a.World) × (w' : Writer r) × (answer
        ≡ ok (item, state, world))
      × (inspect laws (some item) w ≡ ok w')
      × Follows laws lost state w'
      × (w'.dyntype ≡ dyntype)

  bounced :
      (rounds : ℕ) (lost : Bool) (w : Writer r) (event : Option (Item r a)) (state : State a.Stream)
      (world : a.World) (w' : Writer r)
      → inspect laws event w ≡ ok w'
      → Follows laws lost state w'
      → w'.dyntype ≡ dyntype
      → (event ≡ none
          → (x : Writer r) → Follows laws lost state x
          → x.dyntype ≡ dyntype
          → Delivered (lost_call rounds lost state world) x (step r a rounds wc state world))
      → Delivered
          (lost_bounce (lost_call rounds) lost (ok (event, state, world)))
          w
          (bounce r a (step r a rounds wc) (event, state, world))
  bounced rounds lost w (some item) state world w' seen follows type again =
      (item, state, world, w', refl, seen, follows, type)
  bounced rounds lost w none state world w' seen follows type again =
      let same : w ≡ w' = ground arith in again refl w (rw same follows) (rw same type)

  -- Over an API server that keeps its documentation, and that goes on silently only a bounded number
  -- of times (each silent step makes a rank smaller): if the cache holds the content of the cluster at
  -- the version where the watch resumes (unless a new list is due, or an event was lost since the last
  -- list), a call with more rounds than the rank delivers an item which the cache takes, and the cache
  -- then holds the content at the version where the watch resumes, with the same exceptions, where a
  -- list makes up for what was lost before it.
  pub step-Delivered :
      (rank : State a.Stream → a.World → ℕ)
      → ((s s' : State a.Stream) (v v' : a.World)
          → step_trampolined r a wc s v ≡ ok (none, s', v')
          → rank s' v' < rank s v)
      → (rounds : ℕ) (lost : Bool) (state : State a.Stream) (world : a.World) (w : Writer r)
      → Follows laws lost state w
      → w.dyntype ≡ dyntype
      → rank state world < rounds
      → Delivered (lost_call rounds lost state world) w (step r a rounds wc state world)
  unfolding step lost_call
  step-Delivered rank silent zero lost state world w follows type enough = absurd (omega arith)
  step-Delivered rank silent (suc rounds) lost state world w follows type enough =
      let (event, state', world', w', done, seen, follows', type') =
        step_trampolined-Reflected laws lost state world w follows type in
      rw done (
        bounced rounds (lost_after laws lost state world) w event state' world' w' seen follows'
          type'
          (λ nothing x h k.
            let less = silent state state' world world' (done ∙ rw nothing refl) in
            step-Delivered rank silent rounds (lost_after laws lost state world) state' world' x h k
              (omega (arith, less))))
