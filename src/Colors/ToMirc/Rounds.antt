-- ===== src/Colors/ToMirc/Rounds.antt =====
-- How much a round over a text with tags takes and adds.
use xdccget_for_windows.Colors.ToMirc.{
  goes_behind, goes_on, TagRound, tag_round, rest_of, split_at, color_code, replaced_tag,
  tag_or_text,
}
use xdccget_for_windows.Requests.Laws.{wanted}
use xdccget_for_windows.Base.{
  ◌≡◌, ◌+◌, ℕ, ◌≤◌, ◌*◌, length, ◌<◌, some, arith, Option-cases, ◌==◌, drop, inl, Bool-cases, inr,
  [], ◌∷◌, ◌&&◌, ◌++◌, length-append, leb,
}
use xdccget_for_windows.Bytes.{Bytes}
use xdccget_for_windows.Receive.Stream.{opened}

split_at-length :
    (wanted : ℕ) (s before behind : Bytes)
    → split_at wanted s ≡ some (before, behind)
    → length before + 1 + length behind ≡ length s
unfolding split_at
split_at-length wanted [] before behind h = absurd (ground arith)
split_at-length wanted (c ∷ s) before behind h = elim (Bool-cases (c == wanted)) [
  | inl e ↦ ground (arith, rw (split_at, e) at h)
  | inr e ↦ elim (Option-cases (split_at wanted s)) [
    | inl none_ ↦ absurd (ground (arith, rw (split_at, e, none_) at h))
    | inr ((a, b), found) ↦
        ground (arith, rw (split_at, e, found) at h, split_at-length wanted s a b found)
  ]
]

color_code_short : (s code : Bytes) → color_code s ≡ some code → length code ≤ 6
unfolding color_code
color_code_short s code h = ground arith

replaced_tag_short : (tag code : Bytes) → replaced_tag tag ≡ some code → length code ≤ 6
unfolding replaced_tag
replaced_tag_short tag code h = ground (arith, color_code_short (drop 6 tag) code)

-- A round adds a text of at most seven bytes for each byte that it takes, and takes one at least.
abbrev pub IsShort : Bytes → TagRound → Type 0
IsShort cur (rest_of str) = length str ≤ length cur
IsShort cur (goes_on str behind) =
    (length behind < length cur) × (length str + 7 * length behind ≤ 7 * length cur)
IsShort cur goes_behind = Unit

tag_or_text-IsShort :
    (part tag behind cur : Bytes)
    → length part + length tag + length behind + 2 ≡ length cur
    → IsShort cur (tag_or_text part tag behind)
tag_or_text-IsShort part tag behind cur h =
    elim (Bool-cases (leb 1 (length tag) && leb (length tag) 29)) [
      | inr e ↦ rw (IsShort, tag_or_text, e) kept
      | inl e ↦
          rw (IsShort, tag_or_text, e)
            (elim (Option-cases (replaced_tag tag)) [
              | inl none_ ↦ rw none_ kept
              | inr (code, found) ↦ rw found (
                omega (arith, h),
                omega (arith, h, length-append part code, replaced_tag_short tag code found),
              )
            ])
    ]
  where
    kept : IsShort cur (goes_on (part ++ (b'[' ∷ (tag ++ (b']' ∷ [])))) behind)
    kept = (
      omega (arith, h),
      omega (
        arith,
        h,
        length-append part (b'[' ∷ (tag ++ (b']' ∷ []))),
        length-append tag (b']' ∷ []),
      ),
    )

pub tag_round-IsShort : (cur : Bytes) → IsShort cur (tag_round cur)
unfolding tag_round
tag_round-IsShort cur = elim (Option-cases (split_at b'[' cur)) [
  | inl none_ ↦ rw (tag_round, none_) (omega arith)
  | inr ((part, from_tag), opened) ↦ elim (Option-cases (split_at b']' from_tag)) [
    | inl none_ ↦ rw (tag_round, opened, none_) tt
    | inr ((tag, behind), closed) ↦
        rw (tag_round, opened, closed)
          (tag_or_text-IsShort part tag behind cur (
            omega (
              arith,
              split_at-length b'[' cur part from_tag opened,
              split_at-length b']' from_tag tag behind closed,
            )))
  ]
]
