-- ===== src/Routing/Manager/Interleaved/Tasks.antt =====
-- The tasks of overlapping calls, each for a block of its own: any of them may go on, and nothing
-- changes in where they all lead.
use mathlib.Core.Path.{fun_ext}
use leshy.Prelude.{
  ℕ, ◌≡◌, ◌≢◌, refl, sym, ◌∙◌, ap, Option, some, none, arith, nat_eq, pair_eq, List, [], ◌∷◌, ◌++◌,
  ◌==◌, if◌then◌else◌, is_empty, list_eq,
}
use leshy.Prelude.Text.{Str}
use leshy.Config.{RouteType, ZoneConfig}
use leshy.Routing.Prefix.{network_address}
use leshy.Routing.Aggregator.{RouteAction, add, remove}
use leshy.Routing.Aggregator.Replay.{Kernel, apply_action, replay, replay-append}
use leshy.Routing.Aggregator.WellFormed.{AllInside}
use leshy.Routing.Manager.Interleaved.{Task, task, Next, first, later, Last, first_done, later_done}

-- The actions ahead, one task after the other.
unfoldable pub pending : List Task → List RouteAction
pending [] = []
pending (task ip zone actions ∷ ts) = actions ++ pending ts

-- No task is for an address of the block around `ip`.
abbrev pub Clear : ℕ → ℕ → List Task → Type 0
Clear p ip [] = Unit
Clear p ip (task x zone actions ∷ ts) = (network_address x p ≢ network_address ip p) × Clear p ip ts

-- Each task is for a block of its own.
abbrev pub Separate : ℕ → List Task → Type 0
Separate p [] = Unit
Separate p (task ip zone actions ∷ ts) = AllInside p ip actions × (Clear p ip ts × Separate p ts)

-- The network of an action, and how it is routed afterwards.
unfoldable pub key_of : RouteAction → ℕ × ℕ
key_of (add net q t target) = (net, q)
key_of (remove net q) = (net, q)

unfoldable pub outcome_of : RouteAction → Option (RouteType × Str)
outcome_of (add net q t target) = some (t, target)
outcome_of (remove net q) = none

pub apply_action_at :
    (a : RouteAction) (k : Kernel) (key : ℕ × ℕ)
    → apply_action a k key ≡ (if key_of a == key then outcome_of a else k key)
unfolding apply_action key_of outcome_of
apply_action_at (add net q t target) k key = refl
apply_action_at (remove net q) k key = refl

-- Actions on different networks commute.
pub apply_action_comm :
    (a b : RouteAction) (k : Kernel)
    → key_of a ≢ key_of b
    → apply_action b (apply_action a k) ≡ apply_action a (apply_action b k)
apply_action_comm a b k ne = fun_ext λ key.
    rw
      (
        apply_action_at b (apply_action a k) key,
        apply_action_at a k key,
        apply_action_at a (apply_action b k) key,
        apply_action_at b k key,
      )
      (ground arith)

pub key_inside :
    (p ip : ℕ) (a : RouteAction) (xs : List RouteAction)
    → AllInside p ip (a ∷ xs)
    → (network_address (key_of a).0 p ≡ network_address ip p) × AllInside p ip xs
unfolding key_of
key_inside p ip (add net q t target) xs h = h
key_inside p ip (remove net q) xs h = h

-- An action of another block can go before the actions of this one.
replay_comm :
    (p ip : ℕ) (xs : List RouteAction) (a : RouteAction) (k : Kernel)
    → AllInside p ip xs
    → network_address (key_of a).0 p ≢ network_address ip p
    → replay xs (apply_action a k) ≡ apply_action a (replay xs k)
unfolding replay
replay_comm p ip [] a k h ne = refl
replay_comm p ip (x ∷ xs) a k h ne =
    let (here, rest) = key_inside p ip x xs h in
    ap (replay xs)
      (apply_action_comm a x k (λ e. ne (ap (λ (key : ℕ × ℕ). network_address key.0 p) e ∙ here)))
    ∙ replay_comm p ip xs a (apply_action x k) rest ne

-- The next action of any task.
pub Next-outside :
    (p x : ℕ) {ts us vs : List Task} {a : RouteAction}
    → Next ts a us vs
    → Separate p ts
    → Clear p x ts
    → network_address (key_of a).0 p ≢ network_address x p
Next-outside p x (first {ip = ip} {a = a} {actions = actions}) s c e =
    c.0 (sym (key_inside p ip a actions s.0).0 ∙ e)
Next-outside p x (later {t = task ip zone actions} n) s c e = Next-outside p x n s.1.1 c.1 e

Next-Clear :
    (p x : ℕ) {ts us vs : List Task} {a : RouteAction}
    → Next ts a us vs
    → Clear p x ts
    → Clear p x us
Next-Clear p x first c = c
Next-Clear p x (later {t = task ip zone actions} n) c = (c.0, Next-Clear p x n c.1)

pub Next-Separate :
    (p : ℕ) {ts us vs : List Task} {a : RouteAction}
    → Next ts a us vs
    → Separate p ts
    → Separate p us
Next-Separate p (first {ip = ip} {a = a} {actions = actions}) s =
    ((key_inside p ip a actions s.0).1, s.1)
Next-Separate p (later {t = task ip zone actions} n) s =
    (s.0, (Next-Clear p ip n s.1.0, Next-Separate p n s.1.1))

-- It may as well be the first of all that are ahead.
pub Next-replay :
    (p : ℕ) {ts us vs : List Task} {a : RouteAction} (n : Next ts a us vs) (k : Kernel)
    → Separate p ts
    → replay (pending us) (apply_action a k) ≡ replay (pending ts) k
unfolding pending replay
Next-replay p first k s = refl
Next-replay p (later {t = task ip zone actions} {a = a} {ts = ts} {us = us} n) k s =
    replay-append actions (pending us) (apply_action a k)
    ∙ ap (replay (pending us)) (replay_comm p ip actions a k s.0 (Next-outside p ip n s.1.1 s.1.0))
    ∙ Next-replay p n (replay actions k) s.1.1
    ∙ sym (replay-append actions (pending ts) k)

Last-Clear :
    (p x : ℕ) {ts us : List Task} {ip : ℕ} {zone : ZoneConfig}
    → Last ts ip zone us
    → Clear p x ts
    → Clear p x us
Last-Clear p x first_done c = c.1
Last-Clear p x (later_done {t = task ip zone actions} l) c = (c.0, Last-Clear p x l c.1)

pub Last-Separate :
    (p : ℕ) {ts us : List Task} {ip : ℕ} {zone : ZoneConfig}
    → Last ts ip zone us
    → Separate p ts
    → Separate p us
Last-Separate p first_done s = s.1.1
Last-Separate p (later_done {t = task ip zone actions} l) s =
    (s.0, (Last-Clear p ip l s.1.0, Last-Separate p l s.1.1))

pub Last-pending :
    {ts us : List Task} {ip : ℕ} {zone : ZoneConfig} → Last ts ip zone us → pending us ≡ pending ts
unfolding pending
Last-pending first_done = refl
Last-pending (later_done {t = task ip zone actions} l) =
    ap (λ (bs : List RouteAction). actions ++ bs) (Last-pending l)

-- A new task behind the others.
Clear-append :
    (p x ip : ℕ) (zone : ZoneConfig) (actions : List RouteAction) (ts : List Task)
    → Clear p x ts
    → network_address ip p ≢ network_address x p
    → Clear p x (ts ++ task ip zone actions ∷ [])
Clear-append p x ip zone actions [] c ne = (ne, tt)
Clear-append p x ip zone actions (task y z bs ∷ ts) c ne =
    (c.0, Clear-append p x ip zone actions ts c.1 ne)

Separate-append :
    (p ip : ℕ) (zone : ZoneConfig) (actions : List RouteAction) (ts : List Task)
    → Separate p ts
    → Clear p ip ts
    → AllInside p ip actions
    → Separate p (ts ++ task ip zone actions ∷ [])
Separate-append p ip zone actions [] s c h = (h, (tt, tt))
Separate-append p ip zone actions (task y z bs ∷ ts) s c h = (
  s.0,
  (
    Clear-append p y ip zone actions ts s.1.0 (λ e. c.0 (sym e)),
    Separate-append p ip zone actions ts s.1.1 c.1 h,
  ),
)

pending-replay :
    (ip : ℕ) (zone : ZoneConfig) (actions : List RouteAction) (ts : List Task) (k : Kernel)
    → replay (pending (ts ++ task ip zone actions ∷ [])) k ≡ replay actions (replay (pending ts) k)
unfolding pending replay
pending-replay ip zone actions [] k = replay-append actions [] k
pending-replay ip zone actions (task y z bs ∷ ts) k =
    replay-append bs (pending (ts ++ task ip zone actions ∷ [])) k
    ∙ pending-replay ip zone actions ts (replay bs k)
    ∙ ap (replay actions) (sym (replay-append bs (pending ts) k))

-- A call with nothing to do is no task.
pub queued-Separate :
    (p ip : ℕ) (zone : ZoneConfig) (actions : List RouteAction) (ts : List Task)
    → Separate p ts
    → Clear p ip ts
    → AllInside p ip actions
    → Separate p (if is_empty actions then ts else ts ++ task ip zone actions ∷ [])
queued-Separate p ip zone [] ts s c h = s
queued-Separate p ip zone (a ∷ actions) ts s c h = Separate-append p ip zone (a ∷ actions) ts s c h

pub queued-replay :
    (ip : ℕ) (zone : ZoneConfig) (actions : List RouteAction) (ts : List Task) (k : Kernel)
    → replay (pending (if is_empty actions then ts else ts ++ task ip zone actions ∷ [])) k
      ≡ replay actions (replay (pending ts) k)
unfolding replay
queued-replay ip zone [] ts k = refl
queued-replay ip zone (a ∷ actions) ts k = pending-replay ip zone (a ∷ actions) ts k
