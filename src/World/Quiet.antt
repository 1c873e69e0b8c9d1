-- ===== src/World/Quiet.antt =====
-- Programs that neither make nor give back a block.
use switcher_c.Base.{ℕ, ◌≡◌, ◌∙◌, refl, arith, Bool, true, false, Option, none, some, if◌then◌else◌}
use switcher_c.Base.Text.{Bytes}
use switcher_c.World.Weight.{calls, weigh_calls}
use switcher_c.World.Returns.{Returns, returns}
use switcher_c.World.{
  Object, Event, Env, World, Run, ok, fault, Io, pure, undefined_behaviour, and_then, ◌>>=◌, deref,
  call, call_out, emit, strerror_now, set_buf, get_spi,
}

-- The blocks of a log weigh what is given, if the run ends.
abbrev pub Kept : {A : Type 0} → (Object → ℕ) → (Object → ℕ) → ℕ → Run A → Type 0
Kept k g n (ok a w) = weigh_calls k g w.log ≡ n
Kept k g n fault = Unit {0}

pub record KeepsBlocks {A : Type 0} (k g : Object → ℕ) (m : Io A) : Type 0 where
  pub kept : (env : Env) (w : World) → Kept k g (weigh_calls k g w.log) (m env w)

module _ (k g : Object → ℕ) where
  pub pure-KeepsBlocks : {A : Type 0} (a : A) → KeepsBlocks k g (pure a)
  pure-KeepsBlocks a = record { kept = λ env w. refl }

  pub and_then-Kept :
      {A B : Type 0} (n : ℕ) (r : Run A) (f : A → World → Run B)
      → Kept k g n r
      → ((a : A) (w : World) → Kept k g (weigh_calls k g w.log) (f a w))
      → Kept k g n (and_then r f)
  and_then-Kept n fault f h next = tt
  and_then-Kept n (ok a w) f h next = again (f a w) (next a w)
    where
      again : {B : Type 0} (r : Run B) → Kept k g (weigh_calls k g w.log) r → Kept k g n r
      again fault p = tt
      again (ok b w') p = p ∙ h

  pub bind-KeepsBlocks :
      {A B : Type 0} {m : Io A} {f : A → Io B}
      → KeepsBlocks k g m
      → ((a : A) → KeepsBlocks k g (f a))
      → KeepsBlocks k g (m >>= f)
  bind-KeepsBlocks {m = m} {f = f} first next = record {
    kept = λ env w.
        and_then-Kept (weigh_calls k g w.log) (m env w) (λ a. f a env) (first.kept env w)
          (λ a w'. (next a).kept env w');
  }

  pub if-KeepsBlocks :
      {A : Type 0} {m n : Io A} (b : Bool)
      → KeepsBlocks k g m
      → KeepsBlocks k g n
      → KeepsBlocks k g (if b then m else n)
  if-KeepsBlocks true p q = p
  if-KeepsBlocks false p q = q

  pub deref-KeepsBlocks : {A : Type 0} (o : Option A) → KeepsBlocks k g (deref o)
  deref-KeepsBlocks none = record { kept = λ env w. tt }
  deref-KeepsBlocks (some a) = record { kept = λ env w. refl }

  pub call-KeepsBlocks : (e : Event) → calls k g e ≡ 0 → KeepsBlocks k g (call e)
  call-KeepsBlocks e none_made = record { kept = λ env w. omega (arith, none_made) }

  pub call_out-KeepsBlocks : (e : Event) → calls k g e ≡ 0 → KeepsBlocks k g (call_out e)
  call_out-KeepsBlocks e none_made = record { kept = λ env w. omega (arith, none_made) }

  pub emit-KeepsBlocks : (e : Event) → calls k g e ≡ 0 → KeepsBlocks k g (emit e)
  emit-KeepsBlocks e none_made = record { kept = λ env w. omega (arith, none_made) }

  pub strerror-KeepsBlocks : KeepsBlocks k g strerror_now
  strerror-KeepsBlocks = record { kept = λ env w. refl }

  pub set_buf-KeepsBlocks : (b : Bytes) → KeepsBlocks k g (set_buf b)
  set_buf-KeepsBlocks b = record { kept = λ env w. refl }

  pub get_spi-KeepsBlocks : KeepsBlocks k g get_spi
  get_spi-KeepsBlocks = record { kept = λ env w. (deref-KeepsBlocks w.spi).kept env w }

  pub get_buf-KeepsBlocks : KeepsBlocks {A = Bytes} k g (λ env w. ok w.buf w)
  get_buf-KeepsBlocks = record { kept = λ env w. refl }

  pub fault-KeepsBlocks : {A : Type 0} → KeepsBlocks k g (undefined_behaviour {A = A})
  fault-KeepsBlocks = record { kept = λ env w. tt }

  -- What a quiet program that ends leaves.
  pub quiet-Returns :
      {A : Type 0} {P : A → World → Type 0} {m : Io A} (env : Env) (w : World)
      → KeepsBlocks k g m
      → Returns P (m env w)
      → Returns (λ a w'. P a w' × (weigh_calls k g w'.log ≡ weigh_calls k g w.log)) (m env w)
  quiet-Returns env w quiet ends = after ends (quiet.kept env w)
    where
      after :
          {A : Type 0} {P : A → World → Type 0} {r : Run A}
          → Returns P r
          → Kept k g (weigh_calls k g w.log) r
          → Returns (λ a w'. P a w' × (weigh_calls k g w'.log ≡ weigh_calls k g w.log)) r
      after (returns p) e = returns (p, e)
