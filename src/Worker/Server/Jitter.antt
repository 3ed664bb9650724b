-- ===== src/Worker/Server/Jitter.antt =====
-- The randomised wait of an idle poll: `next_random_u64` and `idle_poll_wait`. The state of the
-- generator is one atomic word. `now` is the clock in nanoseconds.
use Prim.Native.Nat.{bit_xor, bit_or}
use hive_core_v.Base.{ℕ, ◌+◌, ◌-◌, ◌*◌, ◌/◌, ◌%◌, ◌^◌, ◌==◌, if◌then◌else◌, ◌≡◌, refl}

abbrev pub word : ℕ
word = 2 ^ 64

-- `0x9e37_79b9_7f4a_7c15`
abbrev pub golden : ℕ
golden = 11_400_714_819_323_198_485

abbrev pub idle_poll_wait_min_ms : ℕ
idle_poll_wait_min_ms = 5

abbrev pub idle_poll_wait_max_ms : ℕ
idle_poll_wait_max_ms = 10

unfoldable pub idle_wait_span : ℕ
idle_wait_span = idle_poll_wait_max_ms - idle_poll_wait_min_ms + 1

unfoldable pub seed_idle_jitter : ℕ → ℕ
seed_idle_jitter now = bit_or (now % word * golden % word) 1

-- A word of the generator, with its three shifts. Zero is replaced.
unfoldable pub next_word : ℕ → ℕ
next_word x0 =
    let x1 = bit_xor x0 (x0 * 2 ^ 13 % word) in
    let x2 = bit_xor x1 (x1 / 2 ^ 7) in
    let x3 = bit_xor x2 (x2 * 2 ^ 17 % word) in if x3 == 0 then golden else x3

-- The new state is the answer; an exchange that another thread wins is tried again on its word.
unfoldable pub next_random_u64 : ℕ → ℕ → ℕ
unfolding seed_idle_jitter next_word
next_random_u64 now observed = next_word (if observed == 0 then seed_idle_jitter now else observed)

-- In milliseconds.
unfoldable pub idle_poll_wait : ℕ → ℕ → ℕ
unfolding next_random_u64 idle_wait_span
idle_poll_wait now observed = idle_poll_wait_min_ms + next_random_u64 now observed % idle_wait_span

-- The wait of a fixed clock and word.
jitter-tests : idle_poll_wait 3 1 ≡ 5 + next_word 1 % 6
unfolding idle_poll_wait
jitter-tests = refl
