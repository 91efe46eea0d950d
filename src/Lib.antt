-- ===== src/Lib.antt =====
-- nabu-iris: the Qualcomm Iris video driver with support for the VPU5 of SM8150. The driver is in
-- kernel-overlay/drivers/media/platform/qcom/iris; the file names below are those of that folder.
--
-- A client opens the device, which brings up the core (iris_core.c): shared memory for three rings
-- (iris_hfi_queue.c), power (iris_vpu_common.c), firmware (iris_firmware.c), a handshake and the
-- first messages (iris_hfi_gen2_packet.c). Each open file is an instance (iris_state.c); a session
-- of the firmware is admitted against the limits of the core, and a session that fails asks for a
-- power-cycle of the core, which is run once no session is open (iris_common.c).
--
-- Files:
--   Common          Boolean tests, u32 arithmetic and errno values, lists, laws of bits
--   Instance        struct iris_inst and its flags (iris_instance.h, iris_state.h)
--   State           iris_inst_change_state, iris_inst_state_change_streamon and _streamoff
--   SubState        iris_inst_change_sub_state and the calls built on it, iris_allow_cmd
--   Queue           iris_hfi_queue_write and iris_hfi_queue_read; Queue/Spec is the abstract queue
--   Core            struct iris_core; Core/Table is iris_hfi_queues_init and _deinit, Core/Vpu the
--                   power and the boot handshake, Core/Boot iris_core_init, iris_core_deinit and
--                   iris_core_recover, Core/Access the locked and counted use of the rings
--   Session         iris_hfi_session_open and _close, the admission of sessions and of their load,
--                   the pending recovery; Session/Events interleaves the locked sections
--                   and the changes of size by the firmware;
--                   Session/Stream and Session/Stop are iris_process_streamon_input and _output
--                   and iris_session_streamoff
--   Core/Collapse   iris_pc_enter, iris_pc_exit and the work, suspend and resume around them, with
--                   iris_pm_suspend and iris_pm_resume of iris_probe.c
--   Session/Files   iris_open and iris_close of iris_vidc.c
--   Session/Setup   iris_vb2_queue_setup: the admission of a session, the IOVA placeholder
--   Buffer          iris_vpu_buffer.c and the sizes of iris_buffer.c: the bitstream and frame sizes,
--                   the internal buffers of decoders and encoders; Buffer/Pool is the life of the
--                   internal buffers, from iris_get_internal_buffers to
--                   iris_destroy_all_internal_buffers;
--                   Buffer/Clients is the buffers of a client between iris_vb2_buf_queue and
--                   iris_vb2_buffer_done, Buffer/Stamps their time stamps
--   Coding          iris_vdec.c and iris_venc.c: START and STOP of a client, the input rate
--   Power           iris_power.c, iris_set_icc_bw, iris_vpu2_calc_freq: the votes of the sessions, and
--                   the load checks of iris_utils.c
--   Packet          the gen2 messages, and the checks of a gen2 response
--   Examples        concrete inputs
--
-- How the code is read: a function that changes a structure takes it and returns its code with the
-- new one. An `int` code is 0, or the errno that the code negates. Numbers are natural, with the
-- wrap-around of u32 and u64 written out; a subtraction is written as the code's where it can go
-- below 0. A section under `core->lock` or `inst->lock` is one step. An instance is an index into
-- the list of its core. A buffer is a function from offsets to bytes, so that an access out of
-- range is visible.
--
-- What is not in the sources is an argument: the answers of the allocator, of the power domains and
-- clocks, of the secure world and of the firmware (PowerAnswers, FwAnswers, BootAnswers, the reads
-- of CTRL_STATUS), and the runtime power management of the kernel (RuntimePm, with the documented
-- effect of its calls on the usage count). The commands of a session behind `hfi_ops` are answers
-- too (OpenAnswer, CloseAnswer, StreamAnswers, StopAnswers, Commander), and so are the reads of an
-- idle firmware (IdleAnswers, WakeAnswers) and the steps of an open (OpenFileAnswers),
-- of a setup (SetupAnswers) and of a command of a client (CommandAnswers). A call that waits with
-- `inst->lock` dropped, inside a START or a STREAMON, answers with what it leaves of the instance.
--
-- Bounds: a ring of any whole number of words up to 2^30 bytes with room for one largest packet;
-- the driver's is 819200 bytes. The one loop with a counter is the boot handshake, whose 1000 polls
-- are the code's own; the walk over the packets of a response is bounded by the header's count.
--
-- What a platform defers is the codec's power: the theorems on the power of the core are about such a
-- platform, SM8150's, and say where they need that the runtime resume of the controller's domain does
-- not fail, after which its reference is lost.
--
-- Not modelled: registers, interrupts, memory barriers, device-tree and clock tables, the ioctls of
-- v4l2 but for START and STOP, the formats, controls, the gen1 messages and the handlers of the
-- responses. The tables of a platform that say which kinds of internal buffers a plane has are
-- arguments.
pub mod Common
pub mod Instance
pub mod State
pub mod SubState
pub mod Queue
pub mod Core
pub mod Session
pub mod Packet
pub mod Buffer
pub mod Power
pub mod Coding
pub mod Examples
