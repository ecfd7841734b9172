-- ===== src/Protocol/Message.antt =====
-- src/protocol/mod.rs, frame.rs and fragment.rs: the headers in front of the payload of a batch.
use thubo.Prelude.{ℕ, ◌≡◌, refl, bit_and, bit_or, Option, some, none, ◌==◌, if◌then◌else◌}
use thubo.Protocol.Qos.{Qos}
use thubo.Protocol.SeqNum.{SeqNum}

-- `id::MASK`, the low five bits, and the two message types
abbrev pub id_mask : ℕ
id_mask = 31

abbrev pub frame_id : ℕ
frame_id = 0

abbrev pub fragment_id : ℕ
fragment_id = 1

pub record FrameHeader : Type 0 where
  pub header : ℕ

-- `FrameHeader::new` and `FrameHeader::from_u8`
abbrev pub new_frame : FrameHeader
new_frame = record { header = frame_id }

abbrev pub frame_from_u8 : ℕ → FrameHeader
frame_from_u8 h = record { header = h }

pub data FragmentKind : Type 0 where
  first more last : FragmentKind

-- `kind as u8`: the kind stands in the bits 5 and 6.
unfoldable pub kind_to_u8 : FragmentKind → ℕ
kind_to_u8 first = 0
kind_to_u8 more = 32
kind_to_u8 last = 64

-- `FragmentKind::MASK`
abbrev pub kind_mask : ℕ
kind_mask = 96

pub record FragmentHeader : Type 0 where
  pub header : ℕ
  pub frag_id : SeqNum

-- `FragmentHeader::new` and `FragmentHeader::from_parts`
unfoldable pub new_fragment : FragmentKind → SeqNum → FragmentHeader
unfolding kind_to_u8
new_fragment k i = record { header = bit_or fragment_id (kind_to_u8 k); frag_id = i }

abbrev pub fragment_from_parts : ℕ → SeqNum → FragmentHeader
fragment_from_parts h i = record { header = h; frag_id = i }

-- The values of the transmute in `FragmentHeader::kind`. `none` is undefined behaviour: no kind has
-- that number.
unfoldable pub kind_of : ℕ → Option FragmentKind
kind_of b =
    if b == 0
    then some first
    else if b == 32
    then some more
    else if b == 64
    then some last
    else none

-- `FragmentHeader::kind`
unfoldable pub kind : FragmentHeader → Option FragmentKind
unfolding kind_of
kind f = kind_of (bit_and f.header kind_mask)

pub record MessageHeader : Type 0 where
  pub header : ℕ
  pub seq_num : SeqNum

-- `MessageHeader::new`, `MessageHeader::from_parts` and `MessageHeader::qos`
abbrev pub new_header : Qos → SeqNum → MessageHeader
new_header q s = record { header = q; seq_num = s }

abbrev pub header_from_parts : ℕ → SeqNum → MessageHeader
header_from_parts h s = record { header = h; seq_num = s }

abbrev pub qos : MessageHeader → Qos
qos m = m.header

pub data MessageBody : Type 0 where
  frame : FrameHeader → MessageBody
  fragment : FragmentHeader → MessageBody

pub record Message : Type 0 where
  pub header : MessageHeader
  pub body : MessageBody

-- A fragment that is made by `new` has its kind, and not that of a frame.
pub kind-new_fragment : (k : FragmentKind) (i : SeqNum) → kind (new_fragment k i) ≡ some k
unfolding kind new_fragment
kind-new_fragment first i = refl
kind-new_fragment more i = refl
kind-new_fragment last i = refl

pub fragment-id :
    (k : FragmentKind) (i : SeqNum) → bit_and (new_fragment k i).header id_mask ≡ fragment_id
unfolding new_fragment
fragment-id first i = refl
fragment-id more i = refl
fragment-id last i = refl
