-- ===== src/Lifecycle/Acks.antt =====
-- Which tasks are acknowledged.
use Prim.Native.String.{String}
use sms_gate.Prelude.{
  ℕ, ◌≡◌, refl, sym, ap, ◌∙◌, inl, inr, Bool, Option, List, [], ◌∷◌, ◌++◌, ltb, length, Bool-cases,
}
use sms_gate.Router.{Task}
use sms_gate.Lifecycle.{
  Ack, Modem, Turn, dispatches, takes_task, handles, Worker, Exit, shut_down, terminated, perform,
  execute, take, nacks, drain_inbound, turn, run,
}

unfoldable pub ack_ids : List Ack → List String
ack_ids [] = []
ack_ids (a ∷ acks) = a.message_id ∷ ack_ids acks

unfoldable pub task_ids : List Task → List String
task_ids [] = []
task_ids (t ∷ tasks) = t.message_id ∷ task_ids tasks

append_assoc : (xs ys zs : List String) → (xs ++ ys) ++ zs ≡ xs ++ (ys ++ zs)
append_assoc [] ys zs = refl
append_assoc (x ∷ xs) ys zs = ap (◌∷◌ x) (append_assoc xs ys zs)

ack_ids-append : (xs ys : List Ack) → ack_ids (xs ++ ys) ≡ ack_ids xs ++ ack_ids ys
unfolding ack_ids
ack_ids-append [] ys = refl
ack_ids-append (x ∷ xs) ys = ap (◌∷◌ x.message_id) (ack_ids-append xs ys)

task_ids-append : (xs ys : List Task) → task_ids (xs ++ ys) ≡ task_ids xs ++ task_ids ys
unfolding task_ids
task_ids-append [] ys = refl
task_ids-append (x ∷ xs) ys = ap (◌∷◌ x.message_id) (task_ids-append xs ys)

-- Every accepted task is acknowledged or waits, in the order in which they came.
unfoldable pub Accounted : {W : Type 0} → Worker W → Type 0
Accounted v = ack_ids v.acks ++ task_ids v.inbound ≡ v.accepted

-- At the end: all are acknowledged, or the rest is lost in the channel.
pub data Ended {W : Type 0} (v : Worker W) : Exit → Type 0 where
  all_acked : ack_ids v.acks ≡ v.accepted → Ended v shut_down
  some_left : ack_ids v.acks ++ task_ids v.inbound ≡ v.accepted → Ended v terminated

module _ {W : Type 0} (modem : Modem W) (unmarshal : String → Option Bool) where
  ack_ids-nacks : (tasks : List Task) → ack_ids (nacks modem unmarshal tasks) ≡ task_ids tasks
  unfolding ack_ids task_ids nacks
  ack_ids-nacks [] = refl
  ack_ids-nacks (t ∷ tasks) = ap (◌∷◌ t.message_id) (ack_ids-nacks tasks)

  take-Accounted :
      (v : Worker W) (inbound : List Task)
      → ack_ids v.acks ++ task_ids inbound ≡ v.accepted
      → v.inbound ≡ inbound
      → Accounted (take modem unmarshal v inbound)
  unfolding Accounted take execute task_ids ack_ids
  take-Accounted v [] h e = rw e h
  take-Accounted v (t ∷ inbound) h e =
      let done : List Ack =
        record { message_id = t.message_id; error = (perform modem unmarshal t v.world).1 } ∷ [] in
      ap (λ ids. ids ++ task_ids inbound) (ack_ids-append v.acks done)
      ∙ (append_assoc (ack_ids v.acks) (t.message_id ∷ []) (task_ids inbound) ∙ h)

  module _ (capacity : ℕ) (terminal : W → Bool) where
    turn-Accounted :
        (t : Turn W) (v : Worker W)
        → Accounted v
        → Accounted (turn modem unmarshal capacity terminal t v)
    unfolding Accounted turn task_ids
    turn-Accounted (dispatches t) v h = elim (Bool-cases (ltb (length v.inbound) capacity)) [
      | inl room ↦
          let grown =
            ap (λ ids. ack_ids v.acks ++ ids) (task_ids-append v.inbound (t ∷ []))
            ∙ (sym (append_assoc (ack_ids v.acks) (task_ids v.inbound) (t.message_id ∷ []))
                ∙ ap (λ ids. ids ++ t.message_id ∷ []) h) in
          rw room grown
      | inr full ↦ simp full h
    ]
    turn-Accounted takes_task v h = take-Accounted v v.inbound h refl
    turn-Accounted (handles f) v h = h

    drained-Ended : (v : Worker W) → Accounted v → Ended (drain_inbound modem unmarshal v) shut_down
    unfolding Accounted drain_inbound
    drained-Ended v h = all_acked (
        ack_ids-append v.acks (nacks modem unmarshal v.inbound)
        ∙ (ap (λ ids. ack_ids v.acks ++ ids) (ack_ids-nacks v.inbound) ∙ h))

    -- Whatever tasks come, in whatever order they and the other cases of the loop are served: when the
    -- worker shuts down, the acknowledgements that it has sent are those of the tasks that its channel has
    -- taken, each once and in their order. When it ends in a terminal state instead, they are those of the
    -- first tasks, and the tasks that are left in the channel have none.
    pub run-Ended :
        (turns : List (Turn W)) (v : Worker W)
        → Accounted v
        → Ended
            (run modem unmarshal capacity terminal turns v).0
            (run modem unmarshal capacity terminal turns v).1
    unfolding run Accounted
    run-Ended [] v h = drained-Ended v h
    run-Ended (t ∷ turns) v h =
        let v' = turn modem unmarshal capacity terminal t v in
        let h' = turn-Accounted t v h in
        elim (Bool-cases (terminal v'.world)) [
          | inl over ↦ rw over (some_left h')
          | inr on ↦ rw on (run-Ended turns v' h')
        ]
