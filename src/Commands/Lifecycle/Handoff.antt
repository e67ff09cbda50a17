-- ===== src/Commands/Lifecycle/Handoff.antt =====
-- From `enqueue_for_device` to the device's next poll.
