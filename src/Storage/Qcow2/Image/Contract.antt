-- ===== src/Storage/Qcow2/Image/Contract.antt =====
-- About storage/qcow2.rs: Qcow2File.
-- What a disk promises to those who read it: its bytes, below a limit, in a state that is good.
use clone.Prelude.{ℕ, ◌+◌, ◌≤◌, ◌<◌, ◌≡◌, some, List}
use clone.Memory.Store.{load}
use clone.Storage.Reply.{Reply, done}
use clone.Storage.Qcow2.Image.{Qcow2File, M}
use clone.Storage.Qcow2.Image.Sound.{Owner, IsLaid, IsCoherent}
use clone.Storage.Qcow2.Image.Disk.{guest_byte}

module _ {B : Type 0} (read : B → ℕ → ℕ → B × Reply (List ℕ)) (peek : B → ℕ → ℕ) (limit : B → ℕ)
    (Good : B → Type 0) where
  -- A read ends well with the bytes, in a good state with the same bytes.
  pub record IsServed (b : B) (pos n : ℕ) : Type 0 where
    pub state : B
    pub answers : read b pos n ≡ (state, done (load (peek b) pos n))
    pub good : Good state
    pub same_limit : limit state ≡ limit b
    pub same_bytes : (x : ℕ) → x < limit b → peek state x ≡ peek b x

  pub record IsDisk : Type 0 where
    pub serves : (b : B) (pos n : ℕ) → Good b → pos + n ≤ limit b → IsServed b pos n

module _ {B : Type 0} (peek : B → ℕ → ℕ) (limit : B → ℕ) (Good : B → Type 0) (top : ℕ) where
  -- An image over a good backing file that can be read up to `top`, which is not below the guest's
  -- disk: an overlay that is larger than the qcow2 image behind it is not sound.
  pub record IsSound (own : ℕ → Owner) (q : Qcow2File B) : Type 0 where
    pub laid : IsLaid own q
    pub coherent : IsCoherent q
    pub backed : (b : B) → q.backing ≡ some b → Good b × (top ≤ limit b)
    pub reach : q.header.size ≤ top

  -- An operation ends well with `a`, in a sound image of the same disk.
  pub record IsRead {A : Type 0} (own : ℕ → Owner) (q : Qcow2File B) (m : M B A) (a : A)
      : Type 0 where
    pub image : Qcow2File B
    pub ends : m q ≡ (image, done a)
    pub sound : IsSound own image
    pub same_header : image.header ≡ q.header
    pub same_disk : (x : ℕ) → x < q.header.size → guest_byte peek image x ≡ guest_byte peek q x
