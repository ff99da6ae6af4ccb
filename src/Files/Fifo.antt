-- ===== src/Files/Fifo.antt =====
-- The order of the messages in psend and preceive of kernel/files.c, where nobody waits.
use kernel_genesis_os.Base.{
  ℕ, ◌<◌, ◌≡◌, refl, sym, ◌∙◌, ap, ℤ, pos, negsuc, Bool, true, false, some, List, [], ◌∷◌, ◌++◌,
  All, arith, ◌==◌, subst, inl, inr, length-append,
}
use kernel_genesis_os.Queue.{queue_add, queue_empty}
use kernel_genesis_os.Queue.Order.{queue_out-append, last-cases, All-split}
use kernel_genesis_os.Kernel.{Kernel, File, Message, attente_file}
use kernel_genesis_os.Kernel.Result.{ok}
use kernel_genesis_os.Kernel.Resume.{returns, returns_to}
use kernel_genesis_os.Processus.{then_return}
use kernel_genesis_os.Files.{file_at, set_file, nb_msg, by_place, add_msg, retire_msg}
use kernel_genesis_os.Files.Transfer.{prepare, psend, psend_at, preceive, preceive_at}

-- The messages of a queue, the oldest first.
pub content_of : List Message → List ℤ
content_of [] = []
content_of (m ∷ ms) = content_of ms ++ m.message ∷ []

unfoldable pub content : File → List ℤ
unfolding content_of
content f = content_of f.queue_msg

-- The queue `fid` is `f`: it stands in the table under its own number, its messages have the same rank.
pub record IsAt (fid : ℕ) (f : File) (k : Kernel) : Type 0 where
  pub found : file_at (pos fid) k ≡ some f
  pub own : f.fid ≡ fid
  pub ranks : All (λ m. m.place ≡ 0) f.queue_msg

pub file_at-set :
    (fid : ℕ) (f g : File) (k : Kernel)
    → file_at (pos fid) k ≡ some f
    → file_at (pos fid) (set_file fid (some g) k) ≡ some g
unfolding file_at
file_at-set fid f g k e = ground arith

pub message_of : ℤ → Message
message_of v = record { message = v; place = 0 }

abbrev pub pushed : File → ℤ → File
pushed f v = record f { queue_msg = message_of v ∷ f.queue_msg }

queue_add-front :
    (v : ℤ) (q : List Message) → queue_add by_place (message_of v) q ≡ message_of v ∷ q
unfolding queue_add message_of
queue_add-front v [] = refl
queue_add-front v (m ∷ ms) = ground arith

pub add_msg_ok :
    (f : File) (v : ℤ) (k : Kernel)
    → nb_msg f < f.max_msg
    → add_msg f v k ≡ ok (set_file f.fid (some (pushed f v)) k)
unfolding add_msg message_of
add_msg_ok f v k lt = ground (arith, queue_add-front v f.queue_msg)

pub content-pushed : (f : File) (v : ℤ) → content (pushed f v) ≡ content f ++ v ∷ []
unfolding content message_of
content-pushed f v = refl

pub file_at-prepare : (fid : ℤ) (v : ℤ) (k : Kernel) → file_at fid (prepare v k) ≡ file_at fid k
unfolding file_at prepare
file_at-prepare (pos f) v k = refl
file_at-prepare (negsuc n) v k = refl

psend_at-stores :
    (f : File) (v : ℤ) (k : Kernel)
    → nb_msg f < f.max_msg
    → k.queue (attente_file f.fid) ≡ []
    → psend_at f v k ≡ ok (set_file f.fid (some (pushed f v)) k, returns (pos 0))
unfolding psend_at then_return
psend_at-stores f v k lt idle =
    let s = add_msg_ok f v k lt in
    let t : queue_empty (k.queue (attente_file f.fid)) ≡ true = ap queue_empty idle in
    rw (s, t) (ground arith)

pub psend-at :
    (fid : ℕ) (f : File) (v : ℤ) (k : Kernel)
    → file_at (pos fid) k ≡ some f
    → psend (pos fid) v k ≡ psend_at f v (prepare v k)
unfolding psend
psend-at fid f v k e = rw (e, psend)

-- psend to a message queue that stands in the table under its own number with messages of one rank,
-- is not full, and at which nobody waits, returns 0 and puts the message behind those that are
-- there; the queue keeps its number, its rank and its capacity, and nobody waits at it.
pub psend_appends :
    (fid : ℕ) (f : File) (v : ℤ) (k : Kernel)
    → IsAt fid f k
    → nb_msg f < f.max_msg
    → k.queue (attente_file fid) ≡ []
    → (k' : Kernel) × (f' : File) × (psend (pos fid) v k ≡ ok (k', returns (pos 0)))
      × IsAt fid f' k'
      × (content f' ≡ content f ++ v ∷ [])
      × (f'.max_msg ≡ f.max_msg)
      × (k'.queue (attente_file fid) ≡ [])
unfolding message_of prepare
psend_appends fid f v k at lt idle = (
  set_file fid (some (pushed f v)) (prepare v k),
  pushed f v,
  psend-at fid f v k at.found
      ∙ subst
          (λ i.
            psend_at f v (prepare v k)
            ≡ ok (set_file i (some (pushed f v)) (prepare v k), returns (pos 0)))
          at.own
          (psend_at-stores f v (prepare v k) lt (ap (λ i. k.queue (attente_file i)) at.own ∙ idle)),
  record {
    found = file_at-set fid f (pushed f v) (prepare v k) (file_at-prepare (pos fid) v k ∙ at.found);
    own = at.own;
    ranks = (refl, at.ranks);
  },
  content-pushed f v,
  refl,
  idle,
)

pub preceive-at :
    (fid : ℕ) (f : File) (b : Bool) (k : Kernel)
    → file_at (pos fid) k ≡ some f
    → preceive (pos fid) b k ≡ preceive_at f b (prepare (negsuc 0) k)
unfolding preceive
preceive-at fid f b k e = rw (e, preceive)

abbrev pub with_messages : List Message → File → File
with_messages ms f = record f { queue_msg = ms }

pub content-append :
    (ms : List Message) (m : Message) → content_of (ms ++ m ∷ []) ≡ m.message ∷ content_of ms
unfolding content_of
content-append [] m = refl
content-append (x ∷ ms) m = rw (content-append ms m)

pub retire_msg-append :
    (f : File) (ms : List Message) (m : Message) (k : Kernel)
    → f.queue_msg ≡ ms ++ m ∷ []
    → retire_msg f k
      ≡ ok (m.message, with_messages ms f, set_file f.fid (some (with_messages ms f)) k)
unfolding retire_msg
retire_msg-append f ms m k e = rw (e, queue_out-append ms m, retire_msg)

preceive_at-takes :
    (f : File) (ms : List Message) (m : Message) (b : Bool) (k : Kernel)
    → f.queue_msg ≡ ms ++ m ∷ []
    → k.queue (attente_file f.fid) ≡ []
    → preceive_at f b k
      ≡ ok (set_file f.fid (some (with_messages ms f)) k, returns_to b (pos 0) m.message)
unfolding preceive_at then_return
preceive_at-takes f ms m b k e idle =
    let n : (nb_msg f == 0) ≡ false = rw (e, length-append ms (m ∷ [])) (ground arith) in
    let r = retire_msg-append f ms m k e in
    let t : queue_empty (k.queue (attente_file f.fid)) ≡ true = ap queue_empty idle in
    rw (n, r, t) refl

pub uncons : (v w : ℤ) (vs ws : List ℤ) → v ∷ vs ≡ w ∷ ws → (v ≡ w) × (vs ≡ ws)
uncons v w vs ws e = (cc e, cc e)

-- preceive from a message queue that stands in the table under its own number with messages of one
-- rank, is not empty, and at which nobody waits, returns 0 and gives the oldest message, if the
-- caller wants it; the others stay in their order, the queue keeps its number, its rank and its
-- capacity, and nobody waits at it.
pub preceive_takes :
    (fid : ℕ) (f : File) (v : ℤ) (vs : List ℤ) (b : Bool) (k : Kernel)
    → IsAt fid f k
    → content f ≡ v ∷ vs
    → k.queue (attente_file fid) ≡ []
    → (k' : Kernel) × (f' : File) × (preceive (pos fid) b k ≡ ok (k', returns_to b (pos 0) v))
      × IsAt fid f' k'
      × (content f' ≡ vs)
      × (f'.max_msg ≡ f.max_msg)
      × (k'.queue (attente_file fid) ≡ [])
unfolding prepare content
preceive_takes fid f v vs b k at c idle = elim (last-cases f.queue_msg) [
  | inl e ↦ cc (rw e at c)
  | inr (ms, m, e) ↦
      let h = uncons _ _ _ _ (sym (content-append ms m) ∙ ap content_of (sym e) ∙ c) in
      let k₀ = prepare (negsuc 0) k in
      let f' = with_messages ms f in
      (
        set_file fid (some f') k₀,
        f',
        preceive-at fid f b k at.found
            ∙ subst
                (λ i.
                  preceive_at f b k₀ ≡ ok (set_file i (some f') k₀, returns_to b (pos 0) m.message))
                at.own
                (preceive_at-takes f ms m b k₀ e (ap (λ i. k.queue (attente_file i)) at.own ∙ idle))
            ∙ ap (λ x. ok (set_file fid (some f') k₀, returns_to b (pos 0) x)) h.0,
        record {
          found = file_at-set fid f f' k₀ (file_at-prepare (pos fid) (negsuc 0) k ∙ at.found);
          own = at.own;
          ranks =
              (All-split (λ m. m.place ≡ 0) ms (m ∷ [])
                (subst (All (λ m. m.place ≡ 0)) e at.ranks)).0;
        },
        h.1,
        refl,
        idle,
      )
]
