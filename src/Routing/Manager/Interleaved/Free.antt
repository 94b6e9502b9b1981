-- ===== src/Routing/Manager/Interleaved/Free.antt =====
-- The tasks of overlapping calls find no route of a network that they add, whatever the tasks of
-- other blocks do in between.
use leshy.Prelude.{
  ℕ, ◌≡◌, ◌≢◌, sym, ◌∙◌, ap, nat_eq, pair_eq, List, [], ◌∷◌, ◌++◌, is_empty, if◌then◌else◌, arith,
  list_eq,
}
use mathlib.Core.Path.{subst}
use leshy.Config.{ZoneConfig}
use leshy.Routing.Prefix.{network_address}
use leshy.Routing.Aggregator.{RouteAction, add, remove}
use leshy.Routing.Aggregator.Replay.{Kernel, apply_action, replay, replay-append}
use leshy.Routing.Aggregator.WellFormed.{AllInside}
use leshy.Routing.Aggregator.Fresh.{IsFree, AllFree}
use leshy.Routing.Manager.Interleaved.{Task, task, Next, first, later, Last, first_done, later_done}
use leshy.Routing.Manager.Interleaved.Tasks.{
  pending, Clear, Separate, key_of, apply_action_at, apply_action_comm, key_inside, Next-outside,
}

-- An action on another network makes none free, nor takes a free one.
IsFree-apply :
    (x a : RouteAction) (k : Kernel)
    → key_of x ≢ key_of a
    → (IsFree x k → IsFree x (apply_action a k)) × (IsFree x (apply_action a k) → IsFree x k)
unfolding key_of
IsFree-apply (add net q t target) a k ne =
    let at = apply_action_at a k (net, q) in (λ e. ground arith, λ e. ground arith)
IsFree-apply (remove net q) a k ne = (λ u. u, λ u. u)

module _ (p ip : ℕ) (a : RouteAction)
    (out : network_address (key_of a).0 p ≢ network_address ip p) where
  other_key :
      (x : RouteAction) (xs : List RouteAction) → AllInside p ip (x ∷ xs) → key_of x ≢ key_of a
  other_key x xs inside e =
      out (ap (λ (key : ℕ × ℕ). network_address key.0 p) (sym e) ∙ (key_inside p ip x xs inside).0)

  AllFree-apply :
      (xs : List RouteAction) (k : Kernel)
      → AllInside p ip xs
      → AllFree xs k
      → AllFree xs (apply_action a k)
  AllFree-apply [] k inside h = tt
  AllFree-apply (x ∷ xs) k inside h =
      let ne = other_key x xs inside in
      (
        (IsFree-apply x a k ne).0 h.0,
        subst (AllFree xs) (apply_action_comm x a k ne)
            (AllFree-apply xs (apply_action x k) (key_inside p ip x xs inside).1 h.1),
      )

  AllFree-before :
      (xs : List RouteAction) (k : Kernel)
      → AllInside p ip xs
      → AllFree xs (apply_action a k)
      → AllFree xs k
  AllFree-before [] k inside h = tt
  AllFree-before (x ∷ xs) k inside h =
      let ne = other_key x xs inside in
      (
        (IsFree-apply x a k ne).1 h.0,
        AllFree-before xs (apply_action x k) (key_inside p ip x xs inside).1
            (subst (AllFree xs) (sym (apply_action_comm x a k ne)) h.1),
      )

AllFree-replay :
    (p ip x : ℕ) (xs ys : List RouteAction) (k : Kernel)
    → network_address x p ≢ network_address ip p
    → AllInside p ip xs
    → AllInside p x ys
    → AllFree xs (replay ys k)
    → AllFree xs k
unfolding replay
AllFree-replay p ip x xs [] k ne hx hy h = h
AllFree-replay p ip x xs (y ∷ ys) k ne hx hy h =
    let (here, rest) = key_inside p x y ys hy in
    AllFree-before p ip y (λ e. ne (sym here ∙ e)) xs k hx
      (AllFree-replay p ip x xs ys (apply_action y k) ne hx rest h)

-- What is free after the tasks of other blocks is free before them.
pub AllFree-pending :
    (p ip : ℕ) (xs : List RouteAction) (ts : List Task) (k : Kernel)
    → AllInside p ip xs
    → Clear p ip ts
    → Separate p ts
    → AllFree xs (replay (pending ts) k)
    → AllFree xs k
unfolding pending replay
AllFree-pending p ip xs [] k inside c s h = h
AllFree-pending p ip xs (task x zone actions ∷ ts) k inside c s h =
    AllFree-replay p ip x xs actions k c.0 inside s.0 (
      AllFree-pending p ip xs ts (replay actions k) inside c.1 s.1.1
        (subst (AllFree xs) (replay-append actions (pending ts) k) h))

-- Each task's actions are free.
abbrev pub Freed : List Task → Kernel → Type 0
Freed [] k = Unit
Freed (task ip zone actions ∷ ts) k = AllFree actions k × Freed ts k

Clear-Freed :
    (p ip : ℕ) (a : RouteAction) (ts : List Task) (k : Kernel)
    → network_address (key_of a).0 p ≡ network_address ip p
    → Clear p ip ts
    → Separate p ts
    → Freed ts k
    → Freed ts (apply_action a k)
Clear-Freed p ip a [] k here c s h = tt
Clear-Freed p ip a (task x zone actions ∷ ts) k here c s h = (
  AllFree-apply p x a (λ e. c.0 (sym e ∙ here)) actions k s.0 h.0,
  Clear-Freed p ip a ts k here c.1 s.1.1 h.1,
)

pub Next-IsFree :
    {ts us vs : List Task} {a : RouteAction} (k : Kernel)
    → Next ts a us vs
    → Freed ts k
    → IsFree a k
Next-IsFree k first h = h.0.0
Next-IsFree k (later {t = task ip zone actions} n) h = Next-IsFree k n h.1

pub Next-Freed :
    (p : ℕ) {ts us vs : List Task} {a : RouteAction} (k : Kernel)
    → Next ts a us vs
    → Separate p ts
    → Freed ts k
    → Freed us (apply_action a k)
Next-Freed p k (first {ip = ip} {a = a} {actions = actions} {ts = ts}) s h =
    (h.0.1, Clear-Freed p ip a ts k (key_inside p ip a actions s.0).0 s.1.0 s.1.1 h.1)
Next-Freed p k (later {t = task ip zone actions} {a = a} n) s h = (
  AllFree-apply p ip a (Next-outside p ip n s.1.1 s.1.0) actions k s.0 h.0,
  Next-Freed p k n s.1.1 h.1,
)

pub Last-Freed :
    {ts us : List Task} {ip : ℕ} {zone : ZoneConfig} (k : Kernel)
    → Last ts ip zone us
    → Freed ts k
    → Freed us k
Last-Freed k first_done h = h.1
Last-Freed k (later_done {t = task ip zone actions} l) h = (h.0, Last-Freed k l h.1)

Freed-append :
    (ip : ℕ) (zone : ZoneConfig) (actions : List RouteAction) (ts : List Task) (k : Kernel)
    → Freed ts k
    → AllFree actions k
    → Freed (ts ++ task ip zone actions ∷ []) k
Freed-append ip zone actions [] k h free = (free, tt)
Freed-append ip zone actions (task x z bs ∷ ts) k h free =
    (h.0, Freed-append ip zone actions ts k h.1 free)

pub queued-Freed :
    (ip : ℕ) (zone : ZoneConfig) (actions : List RouteAction) (ts : List Task) (k : Kernel)
    → Freed ts k
    → AllFree actions k
    → Freed (if is_empty actions then ts else ts ++ task ip zone actions ∷ []) k
queued-Freed ip zone [] ts k h free = h
queued-Freed ip zone (a ∷ actions) ts k h free = Freed-append ip zone (a ∷ actions) ts k h free
