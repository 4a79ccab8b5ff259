-- ===== src/Opencode/Laws.antt =====
-- The events of the opencode stream: how the chunks are cut does not matter, and the text of a turn.
use mathlib.Core.List.{append-nil, append_assoc}
use llm_stack.Base.{ℕ, map, ◌≡◌, ◌∙◌, refl, sym, ap, List, [], ◌∷◌, ◌++◌, Option, Text, concat}
use llm_stack.Js.{Json, Result, ok, throws, ◌>>=◌}
use llm_stack.Opencode.Lines.{cut_lines-split, split, split-append, split_rest, continued}
use llm_stack.Opencode.{Stream, on_line, on_lines, on_chunk, on_chunks}

on_lines-append :
    (parse : Text → Option Json) (ls ms : List Text) (s : Stream)
    → on_lines parse (ls ++ ms) s ≡ (on_lines parse ls s >>= on_lines parse ms)
unfolding on_lines
on_lines-append parse [] ms s = refl
on_lines-append parse (l ∷ ls) ms s = go (λ t. on_lines-append parse ls ms t) (on_line parse l s)
  where
    go :
        ((t : Stream) → on_lines parse (ls ++ ms) t ≡ (on_lines parse ls t >>= on_lines parse ms))
        → (r : Result Stream)
        → (r >>= on_lines parse (ls ++ ms)) ≡ ((r >>= on_lines parse ls) >>= on_lines parse ms)
    go more throws = refl
    go more (ok t) = more t

abbrev keep : Text → Stream → Result (Text × Stream)
keep rest s = ok (rest, s)

abbrev handled : (Text → Option Json) → List Text × Text → Stream → Result (Text × Stream)
handled parse cut s = on_lines parse cut.0 s >>= keep cut.1

abbrev onward : (Text → Option Json) → Text → Text × Stream → Result (Text × Stream)
onward parse c p = handled parse (split (p.0 ++ c)) p.1

on_chunk-split :
    (decode : List ℕ → Text) (parse : Text → Option Json) (c : List ℕ) (buf : Text) (s : Stream)
    → on_chunk decode parse c buf s ≡ handled parse (split (buf ++ decode c)) s
unfolding on_chunk
on_chunk-split decode parse c buf s =
    ap (λ cut. handled parse cut s) (cut_lines-split (buf ++ decode c))

handled-continued :
    (parse : Text → Option Json) (cut : List Text × Text) (c : Text) (s : Stream)
    → (handled parse cut s >>= onward parse c) ≡ handled parse (continued cut c) s
handled-continued parse cut c s =
    rw (on_lines-append parse cut.0 (split (cut.1 ++ c)).0 s) (go (on_lines parse cut.0 s))
  where
    go :
        (r : Result Stream)
        → ((r >>= keep cut.1) >>= onward parse c)
          ≡ ((r >>= on_lines parse (split (cut.1 ++ c)).0) >>= keep (split (cut.1 ++ c)).1)
    go throws = refl
    go (ok t) = refl

on_chunks-split :
    (decode : List ℕ → Text) (parse : Text → Option Json) (cs : List (List ℕ)) (buf : Text)
    (s : Stream)
    → split buf ≡ ([], buf)
    → on_chunks decode parse cs buf s ≡ handled parse (split (buf ++ concat (map decode cs))) s
unfolding on_chunks on_lines
on_chunks-split decode parse [] buf s h = rw (append-nil buf, h) refl
on_chunks-split decode parse (c ∷ cs) buf s h = rw (on_chunk-split decode parse c buf s) (
    go (λ t. on_chunks-split decode parse cs cut.1 t (split_rest (buf ++ decode c)))
      (on_lines parse cut.0 s)
    ∙ (handled-continued parse cut rest s
        ∙ ap (λ x. handled parse x s)
            (sym (split-append (buf ++ decode c) rest)
              ∙ ap split (append_assoc buf (decode c) rest))))
  where
    cut : List Text × Text
    cut = split (buf ++ decode c)

    rest : Text
    rest = concat (map decode cs)

    go :
        ((t : Stream) → on_chunks decode parse cs cut.1 t ≡ onward parse rest (cut.1, t))
        → (r : Result Stream)
        → ((r >>= keep cut.1) >>= (λ p. on_chunks decode parse cs p.0 p.1))
          ≡ ((r >>= keep cut.1) >>= onward parse rest)
    go more throws = refl
    go more (ok t) = more t

-- Where no character is cut, so that the chunks decode to what all of the bytes decode to: the events
-- do not depend on where the connection cuts the stream, and any such chunks leave the buffer and the
-- listeners as one chunk with all of the bytes does.
pub chunks_join :
    (decode : List ℕ → Text) (parse : Text → Option Json) (cs : List (List ℕ)) (s : Stream)
    → concat (map decode cs) ≡ decode (concat cs)
    → on_chunks decode parse cs [] s ≡ on_chunk decode parse (concat cs) [] s
chunks_join decode parse cs s whole =
    on_chunks-split decode parse cs [] s refl
    ∙ (ap (λ t. handled parse (split t) s) whole
        ∙ sym (on_chunk-split decode parse (concat cs) [] s))
