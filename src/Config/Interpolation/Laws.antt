-- ===== src/Config/Interpolation/Laws.antt =====
-- How references are replaced.
use Prim.Native.Char.{Char, code}
use Prim.Native.String.{◌++◌ as join}
use Prim.Native.String.append
use text.Mathlib.TextLemmas.{append-nil, append_assoc}
use dicode_relay.Common.{
  ℕ, String, Bool, true, false, ◌||◌, ◌&&◌, refl, ◌==◌, nat_eq, string_eq, Dict, ◌≡◌, sym, ap, ◌∙◌,
  arith,
}
use dicode_relay.Config.Interpolation.{
  env_value, has_close, is_open, outside, in_name, scan, resolve_env_vars,
}

-- Whether a code point stands in a text.
abbrev pub has_code : ℕ → String → Bool
has_code k String.[] = false
has_code k (String.◌∷◌ c s) = (code c == k) || has_code k s

join_nil : (s : String) → join "" s ≡ s
join_nil s = append.nil s

join_cons : (c : Char) (s t : String) → join (String.◌∷◌ c s) t ≡ String.◌∷◌ c (join s t)
join_cons c s t = append.cons c s t

-- A `${` at the start of a text, and one with a `}` after it: a reference.
abbrev pub starts_pair : String → Bool
starts_pair (String.◌∷◌ c (String.◌∷◌ d s)) = (code c == 36) && (code d == 123)
starts_pair _ = false

abbrev pub starts_reference : String → Bool
starts_reference (String.◌∷◌ c (String.◌∷◌ d s)) =
    (code c == 36) && ((code d == 123) && has_code 125 s)
starts_reference _ = false

-- Somewhere in a text.
abbrev pub has_pair : String → Bool
has_pair String.[] = false
has_pair (String.◌∷◌ c s) = starts_pair (String.◌∷◌ c s) || has_pair s

abbrev pub has_reference : String → Bool
has_reference String.[] = false
has_reference (String.◌∷◌ c s) = starts_reference (String.◌∷◌ c s) || has_reference s

has_close_lem : (s : String) → has_close s ≡ has_code 125 s
unfolding has_close
has_close_lem String.[] = refl
has_close_lem (String.◌∷◌ c s) = ap (λ b. (code c == 125) || b) (has_close_lem s)

is_open_lem :
    (c : Char) (s : String) → ((code c == 36) && is_open s) ≡ starts_reference (String.◌∷◌ c s)
unfolding is_open
is_open_lem c String.[] = ground arith
is_open_lem c (String.◌∷◌ d s) =
    ap (λ b. (code c == 36) && ((code d == 123) && b)) (has_close_lem s)

-- A text without a reference is kept.
scan_kept :
    (env : Dict String String) (s : String) → has_reference s ≡ false → scan env outside s ≡ s
unfolding scan
scan_kept env String.[] h = refl
scan_kept env (String.◌∷◌ c s) h =
    let here : ((code c == 36) && is_open s) ≡ false = is_open_lem c s ∙ ground arith in
    rw (scan, here) (ap (String.◌∷◌ c) (scan_kept env s (ground arith)))

-- A character before the `$` of a reference opens none itself.
closed_lem :
    (c : Char) (rest s : String)
    → starts_pair (String.◌∷◌ c rest) ≡ false
    → ((code c == 36) && is_open (join rest (String.◌∷◌ "$" s))) ≡ false
unfolding is_open
closed_lem c String.[] s h = rw (join_nil (String.◌∷◌ "$" s)) (ground arith)
closed_lem c (String.◌∷◌ d rest) s h = rw (join_cons d rest (String.◌∷◌ "$" s)) (ground arith)

scan-prefix :
    (env : Dict String String) (before s : String)
    → has_pair before ≡ false
    → scan env outside (join before (String.◌∷◌ "$" s))
      ≡ join before (scan env outside (String.◌∷◌ "$" s))
unfolding scan
scan-prefix env String.[] s h =
    ap (scan env outside) (join_nil (String.◌∷◌ "$" s))
    ∙ sym (join_nil (scan env outside (String.◌∷◌ "$" s)))
scan-prefix env (String.◌∷◌ c rest) s h =
    let here = closed_lem c rest s (ground arith) in
    let later = scan-prefix env rest s (ground arith) in
    ap (scan env outside) (join_cons c rest (String.◌∷◌ "$" s))
    ∙ rw (scan, here) (ap (String.◌∷◌ c) later)
    ∙ sym (join_cons c rest (scan env outside (String.◌∷◌ "$" s)))

scan-in_name :
    (env : Dict String String) (seen name s : String)
    → has_code 125 name ≡ false
    → scan env (in_name seen) (join name (String.◌∷◌ "}" s))
      ≡ join (env_value env (join seen name)) (scan env outside s)
unfolding scan
scan-in_name env seen String.[] s h =
    ap (scan env (in_name seen)) (join_nil (String.◌∷◌ "}" s))
    ∙ ap (λ n. join (env_value env n) (scan env outside s)) (sym (append-nil seen))
scan-in_name env seen (String.◌∷◌ c rest) s h =
    let here : (code c == 125) ≡ false = ground arith in
    let more = join seen (String.◌∷◌ c String.[]) in
    let grouped : join more rest ≡ join seen (String.◌∷◌ c rest) =
      append_assoc seen (String.◌∷◌ c String.[]) rest
      ∙ ap (join seen) (join_cons c "" rest ∙ ap (String.◌∷◌ c) (join_nil rest)) in
    ap (scan env (in_name seen)) (join_cons c rest (String.◌∷◌ "}" s))
    ∙ rw (scan, here) (scan-in_name env more rest s (ground arith))
    ∙ ap (λ n. join (env_value env n) (scan env outside s)) grouped

has_close-join : (name s : String) → has_close (join name (String.◌∷◌ "}" s)) ≡ true
unfolding has_close
has_close-join String.[] s = ap has_close (join_nil (String.◌∷◌ "}" s))
has_close-join (String.◌∷◌ c rest) s =
    ap has_close (join_cons c rest (String.◌∷◌ "}" s)) ∙ ground (arith, has_close-join rest s)

pub resolve_env_vars-reference :
    (env : Dict String String) (text before name after : String)
    → has_reference text ≡ false
    → has_pair before ≡ false
    → has_code 125 name ≡ false
    → (resolve_env_vars env text ≡ text)
      × (resolve_env_vars env
            (join before (String.◌∷◌ "$" (String.◌∷◌ "{" (join name (String.◌∷◌ "}" after)))))
          ≡ join before (join (env_value env name) (resolve_env_vars env after)))
unfolding resolve_env_vars scan is_open
resolve_env_vars-reference env text before name after t h k =
    let tail = join name (String.◌∷◌ "}" after) in
    let opened : scan env outside (String.◌∷◌ "$" (String.◌∷◌ "{" tail))
        ≡ join (env_value env name) (scan env outside after) =
      rw (scan, has_close-join name after)
        (scan-in_name env "" name after k
          ∙ ap (λ n. join (env_value env n) (scan env outside after)) (join_nil name)) in
    (scan_kept env text t, scan-prefix env before (String.◌∷◌ "{" tail) h ∙ ap (join before) opened)
