-- ===== src/Behavior/Replay.antt =====
-- A method of `BehaviorMemory` that may raise: it takes the state, and returns the state that it
-- leaves behind on either outcome. Python keeps what a call changed before it raised.
use e_bpf_based_kernel_ai_se.Prelude.{String}
use e_bpf_based_kernel_ai_se.Behavior.State.{Memory, Result, ok, raise}

abbrev pub Replay : Type 0 → Type 0
Replay A = Memory → Memory × Result A

abbrev pub continue_with : {A B : Type 0} → (A → Replay B) → Memory × Result A → Memory × Result B
continue_with f (m, ok a) = f a m
continue_with f (m, raise e) = (m, raise e)

infixl 5 ◌>>=◌ ◌>>◌
abbrev pub ◌>>=◌ : {A B : Type 0} → Replay A → (A → Replay B) → Replay B
◌>>=◌ r f m = continue_with f (r m)

abbrev pub ◌>>◌ : {B : Type 0} → Replay (Unit {0}) → Replay B → Replay B
r >> k = r >>= λ _. k

abbrev pub pure : {A : Type 0} → A → Replay A
pure a m = (m, ok a)

abbrev pub modify : (Memory → Memory) → Replay (Unit {0})
modify f m = (f m, ok tt)

abbrev pub gets : {A : Type 0} → (Memory → A) → Replay A
gets f m = (m, ok (f m))

abbrev pub fail : {A : Type 0} → String → Replay A
fail e m = (m, raise e)
