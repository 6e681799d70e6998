-- ===== src/Domain/Json/Printed.antt =====
-- The tokens of the text of a document.
use ultratokenizer.Base.{
  Text, is_space, Bool, true, false, ◌&&◌, ◌≡◌, refl, ap, ◌∙◌, subst, [], ◌∷◌, arith, ◌++◌,
}
use ultratokenizer.Domain.Json.{open_brace, key, quoted, tokens, advance}
use ultratokenizer.Domain.Json.Document.{
  Document, Elements, Members, scalar, string, array, object, last, element, end, member, print,
  print_elements, print_members, is_fill, is_written, is_written_elements, is_written_members,
  tokens_of, tokens_of_elements, tokens_of_members,
}
use ultratokenizer.Domain.Json.Tokens.{
  meets_colon, meets_colon-fill, tokens-advance, tokens-plain, tokens-fill, tokens-string,
  tokens-key,
}

pub all_three : (a b c : Bool) → (a && b && c) ≡ true → (a ≡ true) × ((b ≡ true) × (c ≡ true))
all_three a b c h = ground (arith, h)

pub all_six :
    (a b c d e f : Bool)
    → (a && b && c && d && e && f) ≡ true
    → (a ≡ true) × (b ≡ true) × (c ≡ true) × (d ≡ true) × (e ≡ true) × (f ≡ true)
all_six a b c d e f h = ground (arith, h)

mutual
  unfolding print is_written is_space

  meets_colon-print :
      (d : Document) (rest : Text)
      → is_written d ≡ true
      → meets_colon rest ≡ false
      → meets_colon (print d rest) ≡ false
  meets_colon-print (scalar t) rest h k = meets_colon-fill t rest h k
  meets_colon-print (string body) rest h k = refl
  meets_colon-print (array es) rest h k = refl
  meets_colon-print (object ms) rest h k = refl

  meets_colon-elements :
      (es : Elements) (rest : Text)
      → is_written_elements es ≡ true
      → meets_colon rest ≡ false
      → meets_colon (print_elements es rest) ≡ false
  meets_colon-elements (last fill) rest h k = meets_colon-fill fill rest h k
  meets_colon-elements (element fill d es) rest h k =
      let (f, (w, ws)) = all_three _ _ _ h in
      meets_colon-fill fill _ f (meets_colon-print d _ w (meets_colon-elements es rest ws k))

  meets_colon-members :
      (ms : Members) (rest : Text)
      → is_written_members ms ≡ true
      → meets_colon rest ≡ false
      → meets_colon (print_members ms rest) ≡ false
  meets_colon-members (end fill) rest h k = meets_colon-fill fill rest h k
  meets_colon-members (member fill name space after d ms) rest h k =
      meets_colon-fill fill _ (ground (arith, h)) refl

mutual
  unfolding print is_written tokens_of advance is_space

  tokens-print :
      (d : Document) (rest : Text)
      → is_written d ≡ true
      → meets_colon rest ≡ false
      → tokens (print d rest) ≡ tokens_of d (tokens rest)
  tokens-print (scalar t) rest h k = tokens-fill t rest h
  tokens-print (string body) rest h k = tokens-string body rest h k
  tokens-print (array es) rest h k =
      tokens-plain b'[' _ refl
      ∙ tokens-elements es (b']' ∷ rest) h refl
      ∙ ap (tokens_of_elements es) (tokens-plain b']' rest refl)
  tokens-print (object ms) rest h k =
      tokens-advance b'{' _
      ∙ ap (λ ts. open_brace ∷ ts)
          (tokens-members ms (b'}' ∷ rest) h refl
            ∙ ap (tokens_of_members ms) (tokens-advance b'}' rest))

  tokens-elements :
      (es : Elements) (rest : Text)
      → is_written_elements es ≡ true
      → meets_colon rest ≡ false
      → tokens (print_elements es rest) ≡ tokens_of_elements es (tokens rest)
  tokens-elements (last fill) rest h k = tokens-fill fill rest h
  tokens-elements (element fill d es) rest h k =
      let (f, (w, ws)) = all_three _ _ _ h in
      tokens-fill fill _ f
      ∙ tokens-print d _ w (meets_colon-elements es rest ws k)
      ∙ ap (tokens_of d) (tokens-elements es rest ws k)

  tokens-members :
      (ms : Members) (rest : Text)
      → is_written_members ms ≡ true
      → meets_colon rest ≡ false
      → tokens (print_members ms rest) ≡ tokens_of_members ms (tokens rest)
  tokens-members (end fill) rest h k = tokens-fill fill rest h
  tokens-members (member fill name space after d ms) rest h k =
      let (f, n, s, g, w, ws) = all_six _ _ _ _ _ _ h in
      tokens-fill fill _ f
      ∙ tokens-key name space _ n s
      ∙ ap (λ ts. key (quoted name) ∷ ts)
          (tokens-fill after _ g
            ∙ tokens-print d _ w (meets_colon-members ms rest ws k)
            ∙ ap (tokens_of d) (tokens-members ms rest ws k))

append-nil : (t : Text) → t ++ [] ≡ t
append-nil [] = refl
append-nil (c ∷ t) = ap (λ r. c ∷ r) (append-nil t)

pub tokens-text :
    (before after : Text) (d : Document)
    → is_fill before ≡ true
    → is_fill after ≡ true
    → is_written d ≡ true
    → tokens (before ++ print d after) ≡ tokens_of d []
unfolding advance tokens
tokens-text before after d f g h =
    let blank : meets_colon after ≡ false =
      subst (λ t. meets_colon t ≡ false) (append-nil after) (meets_colon-fill after [] g refl) in
    let none_left : tokens after ≡ [] =
      subst (λ t. tokens t ≡ []) (append-nil after) (tokens-fill after [] g) in
    tokens-fill before _ f ∙ tokens-print d after h blank ∙ ap (tokens_of d) none_left
