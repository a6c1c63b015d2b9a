-- ===== src/Transport/Command.antt =====
-- The command of src/lifecycle/RunnerTransport.ts quotes the path of the runner.
use run_beacon.Base.{
  ℕ, ◌≤◌, ◌<◌, ◌≡◌, ◌≢◌, sym, some_injective, refl, inl, inr, [], ◌∷◌, ◌++◌, true, false, some,
  length, all, All, arith, Bool-cases,
}
use run_beacon.Base.Text.{Text, ascii}
use run_beacon.Transport.{is_path_byte, is_runner_path, runner_command}

-- No quote, backslash, dollar sign, backquote, white space or control character.
abbrev pub IsPlain : ℕ → Type 0
IsPlain b = (32 < b) × ((b ≢ b'\'') × ((b ≢ 92) × ((b ≢ b'$') × (b ≢ 96))))

not-path_byte : (b c : ℕ) → is_path_byte c ≡ false → is_path_byte b ≡ true → b ≢ c
not-path_byte b c h t e = let f : is_path_byte b ≡ false = rw e h in cc

path_byte-IsPlain : (b : ℕ) → is_path_byte b ≡ true → IsPlain b
unfolding is_path_byte
path_byte-IsPlain b h = (
  ground (arith, h),
  (
    not-path_byte b b'\'' refl h,
    (not-path_byte b 92 refl h, (not-path_byte b b'$' refl h, not-path_byte b 96 refl h)),
  ),
)

All-IsPlain : (bs : Text) → all is_path_byte bs ≡ true → All IsPlain bs
All-IsPlain [] h = tt
All-IsPlain (b ∷ bs) h = elim (Bool-cases (is_path_byte b)) [
  | inl e ↦ (path_byte-IsPlain b e, All-IsPlain bs (rw e at h))
  | inr e ↦ absurd (ground (arith, e, h))
]

-- The command for a path that is not empty is this path between quotes, and `rpc`; the path has 2 to 1024
-- bytes, starts with a slash, and none of its bytes is a quote, a backslash, a dollar sign, a
-- backquote, white space or a control character.
pub runner_command_lem :
    (b : ℕ) (bs command : Text)
    → runner_command (some (b ∷ bs)) ≡ some command
    → (command ≡ ascii "'" ++ ((b ∷ bs) ++ ascii "' rpc"))
      × ((b ≡ b'/') × (All IsPlain (b ∷ bs) × ((2 ≤ length (b ∷ bs)) × (length (b ∷ bs) ≤ 1024))))
unfolding runner_command is_runner_path
runner_command_lem b bs command h = elim (Bool-cases (is_runner_path (b ∷ bs))) [
  | inr e ↦ absurd (ground (arith, rw (runner_command, e) at h))
  | inl e ↦
      let same : some (ascii "'" ++ ((b ∷ bs) ++ ascii "' rpc")) ≡ some command =
        rw (runner_command, e) at h in
      let slash : b ≡ b'/' = ground (arith, e) in
      let safe : all is_path_byte bs ≡ true = ground (arith, e) in
      (
        sym (some_injective same),
        (
          slash,
          (
            (path_byte-IsPlain b (rw slash (unfold is_path_byte in refl)), All-IsPlain bs safe),
            (ground (arith, e), ground (arith, e)),
          ),
        ),
      )
]
