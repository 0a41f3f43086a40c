-- ===== src/Capture/Closed.antt =====
-- packages/contracts/src/captureSafety.ts: the pattern by which `evaluateCaptureResult` knows an error of a closed browser.
use link_suffix.Base.{ℕ, Bool, false, ◌&&◌, ◌||◌, List, [], ◌∷◌, map, ◌==◌, if◌then◌else◌, length}
use link_suffix.Base.Text.{codes, same_codes, starts_with, lower}
use link_suffix.Capture.Query.{drop}

abbrev pub contains : List ℕ → List ℕ → Bool
contains p [] = same_codes p []
contains p (c ∷ cs) = starts_with p (c ∷ cs) || contains p cs

abbrev pub is_line_end : ℕ → Bool
is_line_end c = c == 10 || c == 13 || c == 8232 || c == 8233

-- What `.` can match.
abbrev pub line_of : List ℕ → List ℕ
line_of [] = []
line_of (c ∷ cs) = if is_line_end c then [] else c ∷ line_of cs

abbrev pub is_closed_phrase : List ℕ → Bool
is_closed_phrase cs =
    contains (codes "has been closed") cs
    || contains (codes "was closed") cs
    || contains (codes "is closed") cs

abbrev pub closed_after : List ℕ → List ℕ → Bool
closed_after word [] = false
closed_after word (c ∷ cs) =
    (starts_with word (c ∷ cs) && is_closed_phrase (line_of (drop (length word) (c ∷ cs))))
    || closed_after word cs

-- The pattern for a browser that was closed.
unfoldable pub says_closed : List ℕ → Bool
says_closed error =
    let e = map lower error in
    contains (codes "target page, context or browser") e
    || contains (codes "target closed") e
    || closed_after (codes "page") e
    || closed_after (codes "context") e
    || closed_after (codes "browser") e
