-- ===== src/Pipeline/Tx/Push/Pool.antt =====
-- The sequence numbers of a stage.
use thubo.Prelude.{◌≡◌, refl}
use thubo.Protocol.CongestionControl.{CongestionControl}
use thubo.Protocol.SeqNum.{SeqNum, IsSeqNum}
use thubo.Pipeline.Tx.Stage.{SeqNumPool}
use thubo.Pipeline.Tx.Push.{generator, set_generator}

abbrev pub IsPool : SeqNumPool → Type 0
IsPool pool = IsSeqNum pool.reliable × IsSeqNum pool.best_effort × IsSeqNum pool.frag_id

pub generator-set_generator :
    (cc : CongestionControl) (n : SeqNum) (pool : SeqNumPool)
    → generator cc (set_generator cc n pool) ≡ n
unfolding generator set_generator
generator-set_generator CongestionControl.drop n pool = refl
generator-set_generator CongestionControl.block n pool = refl

pub generator-IsSeqNum :
    (cc : CongestionControl) (pool : SeqNumPool) → IsPool pool → IsSeqNum (generator cc pool)
unfolding generator
generator-IsSeqNum CongestionControl.drop pool h = h.1
generator-IsSeqNum CongestionControl.block pool h = h.0

pub set_generator-IsPool :
    (cc : CongestionControl) (n : SeqNum) (pool : SeqNumPool)
    → IsPool pool
    → IsSeqNum n
    → IsPool (set_generator cc n pool)
unfolding set_generator
set_generator-IsPool CongestionControl.drop n pool h k = (h.0, k, h.2)
set_generator-IsPool CongestionControl.block n pool h k = (k, h.1, h.2)
