-- ===== src/Web/Agent.antt =====
-- `hdr`, `ua_tag` and `log_http` of src/main.rs. A `&str` is its bytes in UTF-8.
use scoreboard_ctrl.Base.{
  ℕ, ◌<◌, ◌≡◌, ◌↔◌, Bool, true, false, not, ◌&&◌, ◌||◌, Bool-cases, inl, inr, Option, some, none,
  unwrap_or, List, [], ◌∷◌, length, get_or, take, ltb, leb, ◌==◌, if◌then◌else◌, codes, Run, done,
  panicked, ◌>>=◌, assert, arith,
}

abbrev pub starts_with : List ℕ → List ℕ → Bool
starts_with [] text = true
starts_with (p ∷ ps) [] = false
starts_with (p ∷ ps) (c ∷ cs) = p == c && starts_with ps cs

abbrev pub contains : List ℕ → List ℕ → Bool
contains pattern [] = starts_with pattern []
contains pattern (c ∷ cs) = starts_with pattern (c ∷ cs) || contains pattern cs

-- A byte within a character: the first byte of none.
abbrev pub continues : ℕ → Bool
continues b = leb 128 b && ltb b 192

abbrev pub is_char_boundary : List ℕ → ℕ → Bool
is_char_boundary text i =
    i == 0 || i == length text || ltb i (length text) && not (continues (get_or text i 0))

-- `&text[..n]`, which panics within a character.
abbrev pub str_to : List ℕ → ℕ → Run (List ℕ)
str_to text n = assert (is_char_boundary text n) (take n text)

unfoldable pub ua_tag : List ℕ → Run (List ℕ)
ua_tag ua =
    if contains (codes "CaptiveNetworkSupport") ua
    then done (codes "CNA")
    else if contains (codes "Android") ua
    then done (codes "Android")
    else if contains (codes "iPhone") ua || contains (codes "iPad") ua || contains (codes "iPod") ua
    then done (codes "iOS")
    else if contains (codes "Macintosh") ua
    then done (codes "macOS")
    else if ltb 28 (length ua)
    then str_to ua 28
    else done ua

-- What the code reads of a request. `header` is `headers().get(name)`, with `as_str().ok()` of the value.
pub record Parts : Type 0 where
  pub method : List ℕ
  pub path : List ℕ
  pub header : List ℕ → Option (Option (List ℕ))

abbrev pub hdr : Parts → List ℕ → List ℕ
hdr parts name = unwrap_or (unwrap_or (parts.header name) none) (codes "-")

-- The arguments of the line.
pub record Line : Type 0 where
  pub method : List ℕ
  pub path : List ℕ
  pub host : List ℕ
  pub ua : List ℕ
  pub served : Bool
  pub action : List ℕ

-- `served` is `SERVED_UI`. The line that is emitted, if any.
unfoldable pub log_http : Bool → Parts → List ℕ → Run (Option Line)
log_http served parts action =
    let emit : Run (Option Line) = (do
      tag ← ua_tag (hdr parts (codes "User-Agent"))
      done (
          some record {
            method = parts.method;
            path = parts.path;
            host = hdr parts (codes "Host");
            ua = tag;
            served = served;
            action = action;
          })) in
    if starts_with (codes "/api/status") parts.path then done none else emit

-- The names that `ua_tag` knows.
abbrev pub known : List (List ℕ)
known =
    codes "CaptiveNetworkSupport"
    ∷ codes "Android"
    ∷ codes "iPhone"
    ∷ codes "iPad"
    ∷ codes "iPod"
    ∷ codes "Macintosh"
    ∷ []

abbrev pub any_in : List (List ℕ) → List ℕ → Bool
any_in [] text = false
any_in (p ∷ ps) text = contains p text || any_in ps text

-- What the code cannot cut: 29 bytes or more, a character across byte 28, and no known name.
abbrev pub uncut : List ℕ → Bool
uncut ua = not (any_in known ua) && (ltb 28 (length ua) && continues (get_or ua 28 0))

cut_lem :
    (ua : List ℕ) → 28 < length ua → (str_to ua 28 ≡ panicked) ↔ (continues (get_or ua 28 0) ≡ true)
cut_lem ua h = ground arith

-- The end of `ua_tag`: no known name is in the text.
uncut_lem :
    (ua : List ℕ)
    → ((if ltb 28 (length ua) then str_to ua 28 else done ua) ≡ panicked)
      ↔ ((ltb 28 (length ua) && continues (get_or ua 28 0)) ≡ true)
uncut_lem ua = ground (arith, cut_lem ua)

tagged : (tag : List ℕ) → (done tag ≡ panicked) ↔ (false ≡ true)
tagged tag = ground arith

-- The chain of tests of `ua_tag`, with `rest` its last two branches.
chain :
    (a b c d e f g : Bool) (rest : Run (List ℕ))
    → (rest ≡ panicked) ↔ (g ≡ true)
    → ((if a
          then done (codes "CNA")
          else if b
          then done (codes "Android")
          else if c || d || e
          then done (codes "iOS")
          else if f
          then done (codes "macOS")
          else rest)
        ≡ panicked)
      ↔ ((not (a || (b || (c || (d || (e || (f || false)))))) && g) ≡ true)
chain true b c d e f g rest h = tagged _
chain false true c d e f g rest h = tagged _
chain false false true d e f g rest h = tagged _
chain false false false true e f g rest h = tagged _
chain false false false false true f g rest h = tagged _
chain false false false false false true g rest h = tagged _
chain false false false false false false g rest h = h

ua_tag_lem : (ua : List ℕ) → (ua_tag ua ≡ panicked) ↔ (uncut ua ≡ true)
unfolding ua_tag
ua_tag_lem ua =
    let has : List ℕ → Bool = λ name. contains name ua in
    chain (has (codes "CaptiveNetworkSupport")) (has (codes "Android")) (has (codes "iPhone"))
      (has (codes "iPad")) (has (codes "iPod")) (has (codes "Macintosh")) _ _ (uncut_lem ua)

emitted :
    (r : Run (List ℕ)) (line : List ℕ → Line)
    → ((r >>= λ tag. done (some (line tag))) ≡ panicked) ↔ (r ≡ panicked)
emitted (done tag) line = ground arith
emitted panicked line = ground arith

-- The log panics exactly for a request whose path does not start with `/api/status` and whose `User-Agent` has more than
-- 28 bytes, none of the names that `ua_tag` knows, and a character that goes across byte 28.
pub log_http_panics_iff :
    (served : Bool) (parts : Parts) (action : List ℕ)
    → (log_http served parts action ≡ panicked) ↔ (
        (not (starts_with (codes "/api/status") parts.path)
          && uncut (hdr parts (codes "User-Agent")))
        ≡ true)
unfolding log_http
log_http_panics_iff served parts action =
    elim (Bool-cases (starts_with (codes "/api/status") parts.path)) [
      | inl e ↦ rw e (ground arith)
      | inr e ↦ rw e (
          let agent = hdr parts (codes "User-Agent") in
          let lines = emitted (ua_tag agent) line in
          (λ h. (ua_tag_lem agent).0 (lines.0 h), λ h. lines.1 ((ua_tag_lem agent).1 h)))
    ]
  where
    line : List ℕ → Line
    line tag = record {
      method = parts.method;
      path = parts.path;
      host = hdr parts (codes "Host");
      ua = tag;
      served = served;
      action = action;
    }
