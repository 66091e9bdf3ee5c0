-- ===== src/Lib.antt =====
-- Verification of posix-bsp-perf: the socket layer bsp/bsp_sockets, the messages and the shared memory
-- ring of midware/zeromq_ipc, the RTP reader of bsp/protocol, the camera client and
-- the object detector of apps/data_recorder, the
-- post-processing of two networks in bsp/bsp_dnn, the drawing of bsp/bsp_egl and the layout of features/svs.
--
-- The socket layer is a reactor. An event loop (IEventLoop.hpp) waits for descriptors and timers and calls
-- back; a TcpServer accepts connections and gives them to its own loop or, by thread queues, to the
-- loops of a thread pool; a TcpConnection reads packets into a queue of buffers, passes each message
-- to the callback that a MsgDispatcher has for its command id, and queues what the callback sends.
-- The same event loop tells the connection when to write. Timers sit in a heap behind a timerfd.
-- A UDP endpoint reads datagrams by the same loop and passes them to the same kind of dispatcher.
-- The camera client joins parts: one thread receives messages of several parts over ZeroMQ, takes them
-- apart with the RTP reader and queues them in buffers of a pool; the decoder's thread gives the buffers
-- back; a third thread publishes the decoded frames through a ring of slots in shared memory. The object detector
-- takes them from there, runs a network on them and publishes them again with its boxes. Two
-- networks have a post-processing that turns their outputs into boxes and suppresses those that overlap a
-- better one. The drawing and the layout of the surround view stand alone.
--
-- Files, with the code that each is about, under bsp/bsp_sockets unless the path says otherwise:
--   Prelude   shared notation, lists under native indices, maps as association lists
--   Timer     impl/TimerQueue.cpp, impl/TimerQueue.hpp: addTimer is add_timer, delTimer is
--             del_timer, getFiredTimerEvents is get_fired_timer_events, heapAdd, heapDel, heapPop and
--             heapHold are heap_add, heap_del, heap_pop and heap_hold;
--             Timer/Calls has runAt, runAfter and runEvery of the event loops
--   Message   impl/MsgHead.hpp: the head of a packet in memory
--   Syscall   the answers of read, write and accept, and the loops that call again after EINTR
--   Buffers   impl/IOBuffer.hpp, impl/IOBuffer.cpp: readData is read_data, writeFd is write_fd
--   Dispatcher  impl/MsgDispatcher.hpp
--   Registry  IEventLoop.hpp: what addIoEvent and delIoEvent promise, as a map of interests
--   Poll      impl/EventLoopPoll.cpp: the loop over poll(2), with its three tables
--   Epoll     impl/EventLoopEpoll.cpp: the loop over epoll(7), with the kernel's interest list
--   Libevent  impl/EventLoopLibevent.cpp: the loop over libevent
--   Workers   impl/ThreadQueue.hpp, impl/ThreadPool.cpp: the queues and the round robin
--   Connection  impl/TcpConnection.cpp, with what it uses of its server
--   Accept    impl/TcpServer.cpp and onMsgComing of impl/ThreadPool.cpp
--   Client    impl/TcpClient.cpp
--   Udp       impl/UdpServer.cpp and impl/UdpClient.cpp: sendData is send_data, handleRead is
--             server_handle_read and client_handle_read
--   Zmq       midware/zeromq_ipc/zmqPublisher.cpp and zmqSubscriber.cpp: the overload of receiveDataMore that
--             fills a vector is receive_vector_more
--   SharedMem midware/zeromq_ipc/sharedMemPublisher.cpp and sharedMemSubscriber.cpp
--   Rtp       bsp/protocol/RtpReader.cpp: extractPayload is extract_payload and, for the overload that
--             copies, copy_payload
--   Yolo      bsp/bsp_dnn/dnnObjDetector_plugins/rknn/yolo/common/YoloPostProcess.cpp: nms is nms,
--             doProcess is do_process in Yolo/Decode, runPostProcess is run_post_process in Yolo/Run
--   TrafficCam
--             bsp/bsp_dnn/dnnObjDetector_plugins/nvidia/TensorRT/resnet18/Resnet18TrafficCamNet.cpp:
--             applyNMS is apply_nms, postProcess is post_process in TrafficCam/Grid
--   Camera    apps/data_recorder/sensor_clients/camera: VideoDecHelper.cpp, and of CameraClient.cpp
--             runLoop is receiver_round and consumerLoop is consumer_round in Camera/Frames; the orders in
--             which the threads take turns are a relation in Camera/Threads and a list in Camera/Stream
--   Images    bsp/bsp_image/ImageTypes.hpp: views of images in host memory
--   Dnn       bsp/bsp_dnn/dnnObjDetector.cpp over any engine and any plugin; runDnnInference of
--             objDetector.cpp is run_dnn_inference in Dnn/Inference
--   Detector  apps/data_recorder/obj_detector/objDetector.cpp: runLoop is receive_round, inferenceLoop is
--             inference_round in Detector/Work; the orders in which the two threads take turns are a
--             relation in Detector/Threads; Detector/Path joins the camera's side to this one
--   Viewers   apps/data_recorder/ui/model: CameraConsumerLoop of RawCamera.cpp is camera_round; of
--             ObjectDetectionConsumerLoop of ObjectsDetection.cpp the part on a message
--   Container bsp/bsp_container/impl/ffmpeg: writeStreamPacket and readStreamPacket, and the packet that
--             Recorder::muxerWriteStreamPacket fills
--   Cpu2dGraphics
--             bsp/bsp_egl/Cpu2dGraphics.cpp
--   Svs       features/svs: ProjectionLayout of SvsTypes.hpp, projectSize and applyFlip of
--             SvsProjector.cpp, blend of SvsBlender.cpp
--
-- How the code is read:
--   * A class is a record of its members, a member function a function from the record to the record
--     after it. A call that throws, fails an assertion or leaves defined behaviour is `none`.
--   * The kernel is the environment. What its calls return is an argument: a list of answers for a
--     call in a loop, a Boolean for one that can only fail. The timerfd and the eventfd appear as the
--     value last set and as the number of writes since the last read.
--   * A mutex makes a call one step; interleavings of threads are lists of such steps, or what
--     a relation of steps reaches.
--   * A user callback, with its data, is a handle. In Connection it is a function from a message to
--     the messages that it sends, since it reaches the connection through ISocketHelper; in Poll it
--     is any function on the loop. The server's callbacks on establishing and closing only report.
--   * Due times are 64-bit and the counter of connections is 32-bit, with their wrap-around written
--     out; timer ids are unbounded. A head is laid out as on LP64 little-endian targets. A mask of
--     events is two Booleans, for EPOLLIN and EPOLLOUT.
--   * What is not in the repository is a parameter: epoll_ctl, with what its manual says of it as a
--     hypothesis; std::sort, of which is used that it permutes (in YoloPostProcess.cpp
--     pairs with different scores) and, for the pool of buffers, that it orders;
--     std::hash; the truncated square root; msgpack; and the operations on `float`, of which nothing is
--     assumed.
--
-- Fuel: a sift down the heap is given the number of events, a sift up one more, the loop over due
-- events their number, and the loop over poll's entries 1025, one more than the array has room for.
-- Every other loop is by recursion on a list, mostly on the answers of the kernel, or on the number
-- of its rounds, which the post-processing and the drawing know before each loop.
--
-- Not modelled: the constructors that open sockets, the thread starts and
-- the calls of ZeroMQ, OpenCV and RGA around the modelled parts; the codecs, containers, engines,
-- renderers, samples and other applications, which are for the most part calls of other libraries;
-- fillRainbow and fromHSV, which compute in `float` throughout.
pub mod Prelude
pub mod Timer
pub mod Message
pub mod Syscall
pub mod Buffers
pub mod Dispatcher
pub mod Registry
pub mod Poll
pub mod Epoll
pub mod Libevent
pub mod Workers
pub mod Connection
pub mod Accept
pub mod Client
pub mod Udp
pub mod Zmq
pub mod SharedMem
pub mod Rtp
pub mod Yolo
pub mod TrafficCam
pub mod Camera
pub mod Images
pub mod Dnn
pub mod Detector
pub mod Viewers
pub mod Container
pub mod Cpu2dGraphics
pub mod Svs
