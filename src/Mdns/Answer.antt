-- ===== src/Mdns/Answer.antt =====
-- What `mdns_task` of src/net_services.rs answers to a query with a name without pointers.
use scoreboard_ctrl.Base.{
  ℕ, ◌+◌, ◌*◌, ◌/◌, ◌%◌, ◌≤◌, ◌<◌, ◌≡◌, refl, ap, ◌∙◌, Bool, true, false, not, ◌&&◌, ◌||◌, Option,
  some, none, List, [], ◌∷◌, ◌++◌, append_assoc, length, length-append, replicate, ltb, ◌==◌,
  if◌then◌else◌, done, ◌>>=◌, load_lem, arith,
}
use scoreboard_ctrl.Dns.{skip_name, load_u16}
use scoreboard_ctrl.Dns.Names.{End, encode_name, AllLabels, skip_name-encode_name}
use scoreboard_ctrl.Dns.Reply.{question, load_u16-append}
use scoreboard_ctrl.Mdns.{
  qname_matches, long_labels, short_labels, mdns_name_is_ours, write_mdns_a, long_name, short_name,
  reply_sent, answer_query, answer_name, on_mdns,
}
use scoreboard_ctrl.Mdns.Reply.{mdns_reply}
use scoreboard_ctrl.Mdns.Match.{same_names, qname_matches-same_names}
use scoreboard_ctrl.Mdns.Safe.{reply_sent-mdns_reply}

-- What is to be sent to a question for the name `ls` of the type `qtype`.
abbrev pub reply_to : List (List ℕ) → ℕ → Option (List ℕ)
reply_to ls qtype =
    let long = same_names ls long_labels in
    let short = same_names ls short_labels in
    if (long || short) && (qtype == 1 || qtype == 255)
    then some (mdns_reply (if short then short_name else long_name))
    else none

-- The reply of the name asked for is the one that is sent.
sent :
    (short : Bool)
    → (write_mdns_a (replicate 64 0) (if short then short_name else long_name) >>= reply_sent)
      ≡ done (some (mdns_reply (if short then short_name else long_name)))
sent true = reply_sent-mdns_reply short_name (omega arith)
sent false = reply_sent-mdns_reply long_name (omega arith)

-- The tests of `mdns_task` on the name and on the type decide as `reply_to` does.
decided :
    (long short address any : Bool)
    → ((if long then done true else done short) >>= λ ours.
        if not ours
        then done none
        else if not address && not any
        then done none
        else (write_mdns_a (replicate 64 0) (if short then short_name else long_name)
            >>= reply_sent))
      ≡ done (
          if (long || short) && (address || any)
          then some (mdns_reply (if short then short_name else long_name))
          else none)
decided true short true any = sent short
decided true short false true = sent short
decided true short false false = refl
decided false true true any = sent true
decided false true false true = sent true
decided false true false false = refl
decided false false address any = refl

-- A query with a name without pointers is answered exactly if the name is `scoreboard.local` or `sb.local`, in whatever
-- case, and the question is for an address or for anything; the reply is the one for that name.
pub on_mdns-reply_to :
    (id1 id2 f1 f2 n1 n2 a b c d e f : ℕ) (ls : List (List ℕ)) (hi lo c1 c2 n : ℕ) (rest : List ℕ)
    → f1 < 128
    → AllLabels ls
    → let head = id1 ∷ id2 ∷ f1 ∷ f2 ∷ n1 ∷ n2 ∷ a ∷ b ∷ c ∷ d ∷ e ∷ f ∷ [] in
      let body = question ls End.root hi lo c1 c2 in
      12 + length body ≤ n → on_mdns (head ++ (body ++ rest)) n ≡ done (reply_to ls (hi * 256 + lo))
unfolding on_mdns answer_name answer_query mdns_name_is_ours
on_mdns-reply_to id1 id2 f1 f2 n1 n2 a b c d e f ls hi lo c1 c2 n rest query al h =
    rw (long_enough, load_lem pkt 2 (omega arith), asks, named, fits, ours, short, typed)
      (decided (same_names ls long_labels) (same_names ls short_labels) (hi * 256 + lo == 1)
        (hi * 256 + lo == 255))
  where
    head : List ℕ
    head = id1 ∷ id2 ∷ f1 ∷ f2 ∷ n1 ∷ n2 ∷ a ∷ b ∷ c ∷ d ∷ e ∷ f ∷ []

    name : List ℕ
    name = encode_name ls End.root

    pkt : List ℕ
    pkt = head ++ (question ls End.root hi lo c1 c2 ++ rest)

    size : length (question ls End.root hi lo c1 c2) ≡ length (encode_name ls End.root) + 4
    size = omega (arith, length-append (encode_name ls End.root) (hi ∷ lo ∷ c1 ∷ c2 ∷ []))

    flat :
        question ls End.root hi lo c1 c2 ++ rest
        ≡ encode_name ls End.root ++ (hi ∷ lo ∷ c1 ∷ c2 ∷ rest)
    flat = append_assoc (encode_name ls End.root) (hi ∷ lo ∷ c1 ∷ c2 ∷ []) rest

    long_enough : ltb n 12 ≡ false
    long_enough = ground (arith, size)

    asks : (f1 / 128 % 2 == 0) ≡ true
    asks = ground arith

    named : skip_name pkt 12 ≡ done (some (12 + length (encode_name ls End.root)))
    named =
        ap (λ p. skip_name (head ++ p) 12) flat
        ∙ skip_name-encode_name head (hi ∷ lo ∷ c1 ∷ c2 ∷ rest) ls End.root refl al tt

    fits : ltb n (12 + length (encode_name ls End.root) + 4) ≡ false
    fits = ground (arith, size)

    ours : qname_matches pkt 12 long_labels ≡ done (same_names ls long_labels)
    ours =
        ap (λ p. qname_matches (head ++ p) 12 long_labels) flat
        ∙ qname_matches-same_names head (hi ∷ lo ∷ c1 ∷ c2 ∷ rest) ls long_labels al (omega arith)

    short : qname_matches pkt 12 short_labels ≡ done (same_names ls short_labels)
    short =
        ap (λ p. qname_matches (head ++ p) 12 short_labels) flat
        ∙ qname_matches-same_names head (hi ∷ lo ∷ c1 ∷ c2 ∷ rest) ls short_labels al (omega arith)

    typed : load_u16 pkt (12 + length (encode_name ls End.root)) ≡ done (hi * 256 + lo)
    typed =
        ap (λ p. load_u16 (head ++ p) (12 + length (encode_name ls End.root))) flat
        ∙ load_u16-append (head ++ encode_name ls End.root) (c1 ∷ c2 ∷ rest) hi lo
            (12 + length (encode_name ls End.root)) (omega arith)
